-- ===== src/Base/Utf8/Encode.antt =====
-- UTF-8 encoding, the bytes of a Rust `String`, and that decoding takes it back.
use Prim.Native.Nat.{◌≤◌, ℕ, ◌+◌, ◌-◌, ◌*◌, ◌<◌, ◌/◌, ◌%◌}
use mathlib.Core.Path.{◌∙◌, ◌≡◌, refl, ap}
use mathlib.Core.Logic.{inl, inr, ◌⊎◌}
use mathlib.Core.Bool.{true, false}
use mathlib.Core.Option.{some}
use mathlib.Core.List.{List, [], ◌∷◌, ◌++◌}
use native.Mathlib.Omega.{arith}
use proxybear.Base.Tests.{ltb, ◌==◌, within, if◌then◌else◌, Bool-cases}
use proxybear.Base.Lists.{All}
use proxybear.Base.Texts.{Text}
use proxybear.Base.Utf8.{Pending, start, more, lead, begin, decode, decode_step, from_utf8}

abbrev encode_char : ℕ → List ℕ
encode_char c =
    if ltb c 0x80
    then c ∷ []
    else if ltb c 0x800
    then (0xc0 + c / 64) ∷ (0x80 + c % 64) ∷ []
    else if ltb c 0x10000
    then (0xe0 + c / 4096) ∷ (0x80 + c / 64 % 64) ∷ (0x80 + c % 64) ∷ []
    else (0xf0 + c / 262144) ∷ (0x80 + c / 4096 % 64) ∷ (0x80 + c / 64 % 64) ∷ (0x80 + c % 64) ∷ []

-- `as_bytes()`.
abbrev pub as_bytes : Text → List ℕ
as_bytes [] = []
as_bytes (c ∷ s) = encode_char c ++ as_bytes s

-- A Unicode scalar value.
abbrev pub IsScalar : ℕ → Type 0
IsScalar c = (c < 0xd800) ⊎ ((0xdfff < c) × (c < 0x110000))

first_byte :
    (b : ℕ) (p : Pending) (rest : List ℕ)
    → 0x80 ≤ b
    → lead b ≡ some p
    → decode start (b ∷ rest) ≡ decode p rest
unfolding decode decode_step begin
first_byte b p rest h e = let f : ltb b 0x80 ≡ false = ground arith in rw (f, e) refl

next_byte :
    (k v lo hi b : ℕ) (rest : List ℕ)
    → 2 ≤ k
    → lo ≤ b
    → b ≤ hi
    → decode (more k v lo hi) (b ∷ rest)
      ≡ decode (more (k - 1) (v * 64 + (b - 0x80)) 0x80 0xbf) rest
unfolding decode decode_step
next_byte k v lo hi b rest h l u =
    let f : within lo hi b ≡ true = ground arith in
    let g : (k == 1) ≡ false = ground arith in rw (f, g) refl

last_byte :
    (v lo hi b : ℕ) (rest : List ℕ)
    → lo ≤ b
    → b ≤ hi
    → decode (more 1 v lo hi) (b ∷ rest) ≡ some (v * 64 + (b - 0x80)) ∷ decode start rest
unfolding decode decode_step
last_byte v lo hi b rest l u = let f : within lo hi b ≡ true = ground arith in rw f refl

lead_two : (b : ℕ) → 0xc2 ≤ b → b ≤ 0xdf → lead b ≡ some (more 1 (b - 0xc0) 0x80 0xbf)
unfolding lead
lead_two b l u = let f : within 0xc2 0xdf b ≡ true = ground arith in rw f refl

-- What a lead byte wants is met by the next byte of the character's encoding.
abbrev Wants : ℕ → ℕ → ℕ → ℕ → Type 0
Wants b k v next =
    (lo : ℕ) × (hi : ℕ) × (lead b ≡ some (more k v lo hi)) × (lo ≤ next) × (next ≤ hi)

lead_three :
    (c : ℕ)
    → 0x800 ≤ c
    → c < 0x10000
    → IsScalar c
    → Wants (0xe0 + c / 4096) 2 (c / 4096) (0x80 + c / 64 % 64)
unfolding lead
lead_three c l u (inl s) = elim (Bool-cases (c / 4096 == 0)) [
  | inl e ↦ (0xa0, 0xbf, ground arith, ground arith, omega arith)
  | inr e ↦ elim (Bool-cases (c / 4096 == 13)) [
    | inl f ↦ (0x80, 0x9f, ground arith, omega arith, ground arith)
    | inr f ↦ (0x80, 0xbf, ground arith, omega arith, omega arith)
  ]
]
lead_three c l u (inr s) = (0x80, 0xbf, ground arith, omega arith, omega arith)

lead_four :
    (c : ℕ)
    → 0x10000 ≤ c
    → c < 0x110000
    → Wants (0xf0 + c / 262144) 3 (c / 262144) (0x80 + c / 4096 % 64)
unfolding lead
lead_four c l u = elim (Bool-cases (c / 262144 == 0)) [
  | inl e ↦ (0x90, 0xbf, ground arith, ground arith, omega arith)
  | inr e ↦ elim (Bool-cases (c / 262144 == 4)) [
    | inl f ↦ (0x80, 0x8f, ground arith, omega arith, ground arith)
    | inr f ↦ (0x80, 0xbf, ground arith, omega arith, omega arith)
  ]
]

decode-two :
    (c : ℕ) (rest : List ℕ)
    → 0x80 ≤ c
    → c < 0x800
    → decode start ((0xc0 + c / 64) ∷ (0x80 + c % 64) ∷ rest) ≡ some c ∷ decode start rest
decode-two c rest l u =
    let b = 0xc0 + c / 64 in
    let v : (b - 0xc0) * 64 + ((0x80 + c % 64) - 0x80) ≡ c = omega arith in
    first_byte b _ _ (omega arith) (lead_two b (omega arith) (omega arith))
    ∙ (last_byte (b - 0xc0) 0x80 0xbf _ rest (omega arith) (omega arith)
        ∙ ap (λ n. some n ∷ decode start rest) v)

decode-three :
    (c : ℕ) (rest : List ℕ)
    → 0x800 ≤ c
    → c < 0x10000
    → IsScalar c
    → decode start ((0xe0 + c / 4096) ∷ (0x80 + c / 64 % 64) ∷ (0x80 + c % 64) ∷ rest)
      ≡ some c ∷ decode start rest
decode-three c rest l u s =
    let (lo, hi, e, f, g) = lead_three c l u s in
    let w = c / 4096 * 64 + ((0x80 + c / 64 % 64) - 0x80) in
    let v : w * 64 + ((0x80 + c % 64) - 0x80) ≡ c = omega arith in
    first_byte (0xe0 + c / 4096) _ _ (omega arith) e
    ∙ (next_byte 2 (c / 4096) lo hi _ _ (omega arith) f g
        ∙ (last_byte w 0x80 0xbf _ rest (omega arith) (omega arith)
            ∙ ap (λ n. some n ∷ decode start rest) v))

decode-four :
    (c : ℕ) (rest : List ℕ)
    → 0x10000 ≤ c
    → c < 0x110000
    → decode start (
        (0xf0 + c / 262144)
        ∷ (0x80 + c / 4096 % 64)
        ∷ (0x80 + c / 64 % 64)
        ∷ (0x80 + c % 64)
        ∷ rest)
      ≡ some c ∷ decode start rest
decode-four c rest l u =
    let (lo, hi, e, f, g) = lead_four c l u in
    let x = c / 262144 * 64 + ((0x80 + c / 4096 % 64) - 0x80) in
    let w = x * 64 + ((0x80 + c / 64 % 64) - 0x80) in
    let v : w * 64 + ((0x80 + c % 64) - 0x80) ≡ c = omega arith in
    first_byte (0xf0 + c / 262144) _ _ (omega arith) e
    ∙ (next_byte 3 (c / 262144) lo hi _ _ (omega arith) f g
        ∙ (next_byte 2 x 0x80 0xbf _ _ (omega arith) (omega arith) (omega arith)
            ∙ (last_byte w 0x80 0xbf _ rest (omega arith) (omega arith)
                ∙ ap (λ n. some n ∷ decode start rest) v)))

decode-one :
    (c : ℕ) (rest : List ℕ) → c < 0x80 → decode start (c ∷ rest) ≡ some c ∷ decode start rest
unfolding decode decode_step begin
decode-one c rest h = let f : ltb c 0x80 ≡ true = ground arith in rw f refl

decode-encode_char :
    (c : ℕ) (rest : List ℕ)
    → IsScalar c
    → decode start (encode_char c ++ rest) ≡ some c ∷ decode start rest
decode-encode_char c rest s = elim (Bool-cases (ltb c 0x80)) [
  | inl e ↦ rw e (decode-one c rest (ground arith))
  | inr e ↦ elim (Bool-cases (ltb c 0x800)) [
    | inl f ↦ rw (e, f) (decode-two c rest (ground arith) (ground arith))
    | inr f ↦ elim (Bool-cases (ltb c 0x10000)) [
      | inl g ↦ rw (e, f, g) (decode-three c rest (ground arith) (ground arith) s)
      | inr g ↦ rw (e, f, g) (decode-four c rest (ground arith) (ground arith))
    ]
  ]
]

-- A text that a Rust `String` can hold is read back from its bytes.
pub from_utf8-as_bytes : (s : Text) → All IsScalar s → from_utf8 (as_bytes s) ≡ some s
unfolding from_utf8
from_utf8-as_bytes [] h = unfold decode in refl
from_utf8-as_bytes (c ∷ s) h =
    rw (decode-encode_char c (as_bytes s) h.0) (rw (from_utf8-as_bytes s h.1) refl)
