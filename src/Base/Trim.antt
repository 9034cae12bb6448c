-- ===== src/Base/Trim.antt =====
-- `str::trim` of the Rust standard library.

use Prim.Native.Nat.{ℕ}
use mathlib.Core.Path.{◌≡◌, refl, ap}
use mathlib.Core.Logic.{inl, inr}
use mathlib.Core.Bool.{Bool, false, ◌&&◌, ◌||◌}
use mathlib.Core.List.{[], ◌∷◌}
use proxybear.Base.Tests.{◌==◌, within, if◌then◌else◌, Bool-cases}
use proxybear.Base.Lists.{is_empty, All}
use proxybear.Base.Texts.{Text}

-- `char::is_whitespace`: Unicode's `White_Space`.
unfoldable pub is_whitespace : ℕ → Bool
is_whitespace c =
    within 9 13 c
    || c == 32
    || c == 0x85
    || c == 0xa0
    || c == 0x1680
    || within 0x2000 0x200a c
    || c == 0x2028
    || c == 0x2029
    || c == 0x202f
    || c == 0x205f
    || c == 0x3000

unfoldable pub trim_start : Text → Text
trim_start [] = []
trim_start (c ∷ s) = let rest = trim_start s in if is_whitespace c then rest else c ∷ s

unfoldable pub trim_end : Text → Text
trim_end [] = []
trim_end (c ∷ s) =
    let rest = trim_end s in if is_whitespace c && is_empty rest then [] else c ∷ rest

unfoldable pub trim : Text → Text
trim s = trim_end (trim_start s)

trim_end_idem : (s : Text) → trim_end (trim_end s) ≡ trim_end s
unfolding trim_end
trim_end_idem [] = refl
trim_end_idem (c ∷ s) = elim (Bool-cases (is_whitespace c && is_empty (trim_end s))) [
  | inl e ↦ rw e
  | inr e ↦ rw e (rw (trim_end_idem s, e))
]

-- A text that starts with a character that is no whitespace keeps it.
trim_start-trim_end_solid :
    (c : ℕ) (s : Text) → is_whitespace c ≡ false → trim_start (trim_end (c ∷ s)) ≡ trim_end (c ∷ s)
unfolding trim_end trim_start
trim_start-trim_end_solid c s h = rw h (rw h)

trim_start-trim_end : (s : Text) → trim_start (trim_end (trim_start s)) ≡ trim_end (trim_start s)
unfolding trim_start
trim_start-trim_end [] = unfold trim_end in refl
trim_start-trim_end (c ∷ s) = elim (Bool-cases (is_whitespace c)) [
  | inl e ↦ rw e (trim_start-trim_end s)
  | inr e ↦ rw e (trim_start-trim_end_solid c s e)
]

pub trim_idem : (s : Text) → trim (trim s) ≡ trim s
unfolding trim
trim_idem s = rw (trim_start-trim_end s) (trim_end_idem (trim_start s))

abbrev pub IsSolid : Text → Type 0
IsSolid = All (λ c. is_whitespace c ≡ false)

trim_end_solid : (s : Text) → IsSolid s → trim_end s ≡ s
unfolding trim_end
trim_end_solid [] h = refl
trim_end_solid (c ∷ s) h = rw h.0 (ap (◌∷◌ c) (trim_end_solid s h.1))

trim_start_solid : (s : Text) → IsSolid s → trim_start s ≡ s
unfolding trim_start
trim_start_solid [] h = refl
trim_start_solid (c ∷ s) h = rw h.0

-- A text with no whitespace in it is its own trim.
pub trim_solid : (s : Text) → IsSolid s → trim s ≡ s
unfolding trim
trim_solid s h = rw (trim_start_solid s h) (trim_end_solid s h)
