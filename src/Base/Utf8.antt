-- ===== src/Base/Utf8.antt =====
-- UTF-8 decoding: `String::from_utf8` and `String::from_utf8_lossy` of the Rust standard library,
-- byte by byte, by the table of well-formed sequences in the Unicode Standard.
pub mod Encode
use Prim.Native.Nat.{◌≤◌, ℕ, ◌+◌, ◌-◌, ◌*◌, ◌<◌}
use mathlib.Core.Path.{sym, ◌∙◌, ◌≡◌, refl, ap}
use mathlib.Core.Bool.{true}
use mathlib.Core.Option
use mathlib.Core.Option.{Option, none, some}
use mathlib.Core.List.{append-nil, append_assoc, List, [], ◌∷◌, ◌++◌, map}
use native.Mathlib.Omega.{arith}
use proxybear.Base.Tests.{ltb, ◌==◌, within, if◌then◌else◌}
use proxybear.Base.Lists.{All}
use proxybear.Base.Texts.{Text}

-- A sequence that has begun: the bytes still wanted, the bits read, and the range of the next byte.
pub data Pending : Type 0 where
  start : Pending
  more : ℕ → ℕ → ℕ → ℕ → Pending

-- What a byte does where a sequence may begin: `none` is a byte that begins none.
unfoldable pub lead : ℕ → Option Pending
lead b =
    if within 0xc2 0xdf b
    then some (more 1 (b - 0xc0) 0x80 0xbf)
    else if b == 0xe0
    then some (more 2 0 0xa0 0xbf)
    else if b == 0xed
    then some (more 2 13 0x80 0x9f)
    else if within 0xe1 0xef b
    then some (more 2 (b - 0xe0) 0x80 0xbf)
    else if b == 0xf0
    then some (more 3 0 0x90 0xbf)
    else if within 0xf1 0xf3 b
    then some (more 3 (b - 0xf0) 0x80 0xbf)
    else if b == 0xf4
    then some (more 3 4 0x80 0x8f)
    else none

-- One byte: the sequence that is then pending, and what is complete, `none` for an ill-formed part.
unfoldable pub begin : ℕ → Pending × List (Option ℕ)
unfolding lead
begin b =
    if ltb b 0x80
    then (start, some b ∷ [])
    else elim (lead b) [ none ↦ (start, none ∷ []) | some p ↦ (p, []) ]

-- A byte out of range ends the pending sequence as ill-formed, and begins anew.
unfoldable pub decode_step : Pending → ℕ → Pending × List (Option ℕ)
unfolding begin
decode_step start b = begin b
decode_step (more k v lo hi) b =
    if within lo hi b
    then if k == 1
      then (start, some (v * 64 + (b - 0x80)) ∷ [])
      else (more (k - 1) (v * 64 + (b - 0x80)) 0x80 0xbf, [])
    else ((begin b).0, none ∷ (begin b).1)

unfoldable pub decode : Pending → List ℕ → List (Option ℕ)
unfolding decode_step
decode start [] = []
decode (more k v lo hi) [] = none ∷ []
decode p (b ∷ bs) = (decode_step p b).1 ++ decode (decode_step p b).0 bs

abbrev or_replacement : Option ℕ → ℕ
or_replacement none = 0xfffd
or_replacement (some c) = c

abbrev pub all_some : List (Option ℕ) → Option Text
all_some [] = some []
all_some (none ∷ cs) = none
all_some (some c ∷ cs) = Option.map (◌∷◌ c) (all_some cs)

unfoldable pub from_utf8 : List ℕ → Option Text
unfolding decode
from_utf8 bs = all_some (decode start bs)

unfoldable pub from_utf8_lossy : List ℕ → Text
unfolding decode
from_utf8_lossy bs = map or_replacement (decode start bs)

abbrev pub IsAscii : List ℕ → Type 0
IsAscii = All (λ b. b < 0x80)

decode-ascii : (bs : List ℕ) → IsAscii bs → decode start bs ≡ map some bs
unfolding decode
decode-ascii [] h = refl
decode-ascii (b ∷ bs) h =
    let e : ltb b 0x80 ≡ true = ground arith in rw e (ap (◌∷◌ (some b)) (decode-ascii bs h.1))

all_some-map : (s : Text) → all_some (map some s) ≡ some s
all_some-map [] = refl
all_some-map (c ∷ s) = rw (all_some-map s)

-- ASCII is read as itself.
pub from_utf8-ascii : (bs : List ℕ) → IsAscii bs → from_utf8 bs ≡ some bs
unfolding from_utf8
from_utf8-ascii bs h = rw (decode-ascii bs h) (all_some-map bs)

map_replacement : (s : Text) → map or_replacement (map some s) ≡ s
map_replacement [] = refl
map_replacement (c ∷ s) = rw (map_replacement s)

pub from_utf8_lossy-ascii : (bs : List ℕ) → IsAscii bs → from_utf8_lossy bs ≡ bs
unfolding from_utf8_lossy
from_utf8_lossy-ascii bs h = rw (decode-ascii bs h) (map_replacement bs)

-- What is pending waits for a byte above ASCII.
abbrev IsHigh : Pending → Type 0
IsHigh start = Unit {0}
IsHigh (more k v lo hi) = 0x80 ≤ lo

abbrev IsHighLead : Option Pending → Type 0
IsHighLead none = Unit {0}
IsHighLead (some p) = IsHigh p

lead-IsHigh : (b : ℕ) → IsHighLead (lead b)
unfolding lead
lead-IsHigh b = ground arith

begin-IsHigh : (b : ℕ) → IsHigh (begin b).0
unfolding begin
begin-IsHigh b = ground arith

decode_step-IsHigh : (p : Pending) (b : ℕ) → IsHigh p → IsHigh (decode_step p b).0
unfolding decode_step
decode_step-IsHigh start b h = begin-IsHigh b
decode_step-IsHigh (more k v lo hi) b h = ground (arith, begin-IsHigh b)

-- An ASCII byte ends whatever is pending.
decode_step-ascii : (p : Pending) (b : ℕ) → b < 0x80 → IsHigh p → (decode_step p b).0 ≡ start
unfolding decode_step begin
decode_step-ascii start b h k = ground arith
decode_step-ascii (more k v lo hi) b h l = ground arith

decode-start : decode start [] ≡ []
unfolding decode
decode-start = refl

decode-cons :
    (p : Pending) (b : ℕ) (bs : List ℕ)
    → decode p (b ∷ bs) ≡ (decode_step p b).1 ++ decode (decode_step p b).0 bs
unfolding decode
decode-cons start b bs = refl
decode-cons (more k v lo hi) b bs = refl

decode-append :
    (p : Pending) (bs : List ℕ) (b : ℕ) (cs : List ℕ)
    → b < 0x80
    → IsHigh p
    → decode p (bs ++ b ∷ cs) ≡ decode p (bs ++ b ∷ []) ++ decode start cs
decode-append p [] b cs h k =
    rw (decode-cons p b cs, decode-cons p b [])
      (rw (decode_step-ascii p b h k) (rw decode-start (rw append-nil)))
decode-append p (c ∷ bs) b cs h k =
    let q = (decode_step p c).0 in
    let ih = decode-append q bs b cs h (decode_step-IsHigh p c k) in
    rw (decode-cons p c (bs ++ b ∷ cs), decode-cons p c (bs ++ b ∷ []))
      (rw ih (sym (append_assoc (decode_step p c).1 (decode q (bs ++ b ∷ [])) (decode start cs))))

map-append :
    (xs ys : List (Option ℕ))
    → map or_replacement (xs ++ ys) ≡ map or_replacement xs ++ map or_replacement ys
map-append [] ys = refl
map-append (x ∷ xs) ys = ap (◌∷◌ (or_replacement x)) (map-append xs ys)

-- Behind an ASCII byte decoding starts anew.
pub from_utf8_lossy-append :
    (bs : List ℕ) (b : ℕ) (cs : List ℕ)
    → b < 0x80
    → from_utf8_lossy (bs ++ b ∷ cs) ≡ from_utf8_lossy (bs ++ b ∷ []) ++ from_utf8_lossy cs
unfolding from_utf8_lossy
from_utf8_lossy-append bs b cs h =
    ap (map or_replacement) (decode-append start bs b cs h tt)
    ∙ map-append (decode start (bs ++ b ∷ [])) (decode start cs)

decode_step-last :
    (p : Pending) (b : ℕ)
    → b < 0x80
    → IsHigh p
    → (xs : List (Option ℕ)) × ((decode_step p b).1 ≡ xs ++ some b ∷ [])
unfolding decode_step begin
decode_step-last start b h k = ([], ground arith)
decode_step-last (more k v lo hi) b h l = (none ∷ [], ground arith)

decode-last :
    (p : Pending) (bs : List ℕ) (b : ℕ)
    → b < 0x80
    → IsHigh p
    → (xs : List (Option ℕ)) × (decode p (bs ++ b ∷ []) ≡ xs ++ some b ∷ [])
decode-last p [] b h k =
    let (xs, e) = decode_step-last p b h k in
    (
      xs,
      rw (decode-cons p b []) (rw (decode_step-ascii p b h k) (rw decode-start (rw append-nil e))),
    )
decode-last p (c ∷ bs) b h k =
    let (xs, e) = decode-last (decode_step p c).0 bs b h (decode_step-IsHigh p c k) in
    (
      (decode_step p c).1 ++ xs,
      rw (decode-cons p c (bs ++ b ∷ []))
          (rw e (sym (append_assoc (decode_step p c).1 xs (some b ∷ [])))),
    )

-- An ASCII byte at the end is the last character.
pub from_utf8_lossy-last :
    (bs : List ℕ) (b : ℕ) → b < 0x80 → (s : Text) × (from_utf8_lossy (bs ++ b ∷ []) ≡ s ++ b ∷ [])
unfolding from_utf8_lossy
from_utf8_lossy-last bs b h =
    let (xs, e) = decode-last start bs b h tt in
    (map or_replacement xs, ap (map or_replacement) e ∙ map-append xs (some b ∷ []))

pub from_utf8_lossy-nil : from_utf8_lossy [] ≡ []
unfolding from_utf8_lossy decode
from_utf8_lossy-nil = refl
