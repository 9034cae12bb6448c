-- ===== src/Base/Search.antt =====
-- `str::split_whitespace` and `str::contains` of the Rust standard library.
use Prim.Native.Nat.{ℕ, zero, suc}
use mathlib.Core.Path.{◌≡◌, refl, ap, ◌∙◌}
use mathlib.Core.Bool.{Bool, true, false, not, ◌&&◌, ◌||◌}
use mathlib.Core.Logic.{◌↔◌, inl, inr}
use mathlib.Core.List.{List, [], ◌∷◌, ◌++◌}
use native.Mathlib.Omega.{arith}
use proxybear.Base.Tests.{◌==◌, if◌then◌else◌, Bool-cases}
use proxybear.Base.Lists.{replicate}
use proxybear.Base.Texts.{Text}
use proxybear.Base.Trim.{is_whitespace, IsSolid}

abbrev starts_solid : Text → Bool
starts_solid [] = false
starts_solid (c ∷ s) = not (is_whitespace c)

-- A character in front of the first word.
abbrev cons_word : ℕ → List Text → List Text
cons_word c [] = (c ∷ []) ∷ []
cons_word c (w ∷ ws) = (c ∷ w) ∷ ws

unfoldable pub split_whitespace : Text → List Text
split_whitespace [] = []
split_whitespace (c ∷ s) =
    let rest = split_whitespace s in
    if is_whitespace c then rest else if starts_solid s then cons_word c rest else (c ∷ []) ∷ rest

split_whitespace-cons :
    (c : ℕ) (s : Text)
    → is_whitespace c ≡ false
    → starts_solid s ≡ true
    → split_whitespace (c ∷ s) ≡ cons_word c (split_whitespace s)
unfolding split_whitespace
split_whitespace-cons c s h k = rw (h, k)

split_whitespace-end :
    (c : ℕ) (s : Text)
    → is_whitespace c ≡ false
    → split_whitespace (c ∷ 32 ∷ s) ≡ (c ∷ []) ∷ split_whitespace s
unfolding split_whitespace
split_whitespace-end c s h = rw h (unfold is_whitespace in refl)

-- A word that a space ends.
pub split_whitespace-word :
    (c : ℕ) (w s : Text)
    → IsSolid (c ∷ w)
    → split_whitespace ((c ∷ w) ++ 32 ∷ s) ≡ (c ∷ w) ∷ split_whitespace s
split_whitespace-word c [] s h = split_whitespace-end c s h.0
split_whitespace-word c (d ∷ w) s h =
    split_whitespace-cons c ((d ∷ w) ++ 32 ∷ s) h.0 (ap not h.1.0)
    ∙ ap (cons_word c) (split_whitespace-word d w s h.1)

pub split_whitespace-spaces :
    (n : ℕ) (s : Text) → split_whitespace (replicate n 32 ++ s) ≡ split_whitespace s
unfolding split_whitespace is_whitespace
split_whitespace-spaces zero s = refl
split_whitespace-spaces (suc n) s = split_whitespace-spaces n s

abbrev starts_with : Text → Text → Bool
starts_with s [] = true
starts_with [] (q ∷ qs) = false
starts_with (c ∷ s) (q ∷ qs) = c == q && starts_with s qs

unfoldable pub contains : Text → Text → Bool
contains [] q = starts_with [] q
contains (c ∷ s) q = starts_with (c ∷ s) q || contains s q

starts_with-append : (q r : Text) → starts_with (q ++ r) q ≡ true
starts_with-append [] r = refl
starts_with-append (c ∷ q) r = ground (arith, starts_with-append q r)

rest_of : (s q : Text) → starts_with s q ≡ true → (r : Text) × (s ≡ q ++ r)
rest_of s [] h = (s, refl)
rest_of [] (c ∷ q) h = cc
rest_of (d ∷ s) (c ∷ q) h = let (r, e) = rest_of s q (ground arith) in (r, ground (arith, e))

-- The text stands in the other one, with something before it and something behind it.
abbrev pub StandsIn : Text → Text → Type 0
StandsIn q s = (p : Text) × (r : Text) × (s ≡ p ++ (q ++ r))

contains-StandsIn : (s q : Text) → contains s q ≡ true → StandsIn q s
unfolding contains
contains-StandsIn [] q h = let (r, e) = rest_of [] q h in ([], r, e)
contains-StandsIn (c ∷ s) q h = elim (Bool-cases (starts_with (c ∷ s) q)) [
  | inl e ↦ let (r, f) = rest_of (c ∷ s) q e in ([], r, f)
  | inr e ↦ let (p, r, f) = contains-StandsIn s q (ground (arith, e)) in (c ∷ p, r, ap (◌∷◌ c) f)
]

contains-append : (p q r : Text) → contains (p ++ (q ++ r)) q ≡ true
unfolding contains
contains-append [] [] [] = refl
contains-append [] [] (c ∷ r) = refl
contains-append [] (c ∷ q) r = ground (arith, starts_with-append (c ∷ q) r)
contains-append (c ∷ p) q r = ground (arith, contains-append p q r)

pub contains_iff : (s q : Text) → (contains s q ≡ true) ↔ StandsIn q s
contains_iff s q = (contains-StandsIn s q, λ (p, r, e). rw e (contains-append p q r))
