-- ===== src/Base/Decimal.antt =====
-- Unsigned integers as text: `to_string` and `str::parse` of the Rust standard library.
use Prim.Native.Nat.{ℕ, zero, suc, ◌+◌, ◌-◌, ◌*◌, ◌/◌, ◌%◌, ◌≤◌, ◌<◌}
use mathlib.Core.Path.{◌≡◌, refl, ◌∙◌, subst}
use mathlib.Core.Logic.{◌≢◌, ◌⊎◌, inl, inr}
use mathlib.Core.Bool.{false}
use mathlib.Core.List.{[], ◌∷◌}
use native.Mathlib.Omega.{arith}
use proxybear.Base.Tests.{ltb, leb, ltb→lt, ◌==◌, within, if◌then◌else◌, Bool-cases}
use proxybear.Base.Lists.{All}
use proxybear.Base.Texts.{Text, codes}
use proxybear.Base.Results.{Result, ok, bail}
use proxybear.Base.Trim.{is_whitespace, IsSolid, trim, trim_solid}

-- The digits of `n` put before `rest`, with fuel above `n`.
unfoldable pub digits : ℕ → ℕ → Text → Text
digits zero n rest = rest
digits (suc f) n rest =
    let more = digits f (n / 10) ((48 + n % 10) ∷ rest) in
    if ltb n 10 then (48 + n) ∷ rest else more

unfoldable pub to_decimal : ℕ → Text
to_decimal n = digits (suc n) n []

-- The loop of `from_str`, with its checks for overflow: at each character the digit is read first.
unfoldable pub parse_digits : ℕ → ℕ → Text → Result ℕ
parse_digits most acc [] = ok acc
parse_digits most acc (c ∷ s) =
    let rest = parse_digits most (acc * 10 + (c - 48)) s in
    if within 48 57 c
    then if leb (acc * 10 + (c - 48)) most
      then rest
      else bail (codes "number too large to fit in target type")
    else bail (codes "invalid digit found in string")

-- `str::parse` into an unsigned type whose largest value is `most`: a sign `+` may come first.
unfoldable pub parse_uint : ℕ → Text → Result ℕ
unfolding parse_digits
parse_uint most [] = bail (codes "cannot parse integer from empty string")
parse_uint most (c ∷ []) = parse_digits most 0 (c ∷ [])
parse_uint most (c ∷ d ∷ s) =
    if c == b'+' then parse_digits most 0 (d ∷ s) else parse_digits most 0 (c ∷ d ∷ s)

abbrev pub u16_max : ℕ
u16_max = 65535

abbrev pub usize_max : ℕ
usize_max = 18446744073709551615

parse_digits_step :
    (most acc d : ℕ) (rest : Text)
    → d < 10
    → acc * 10 + d ≤ most
    → parse_digits most acc ((48 + d) ∷ rest) ≡ parse_digits most (acc * 10 + d) rest
unfolding parse_digits
parse_digits_step most acc d rest h k = let e : 48 + d - 48 ≡ d = omega arith in rw e (ground arith)

parse_digits-digits :
    (most f n : ℕ) (rest : Text)
    → n < f
    → n ≤ most
    → parse_digits most 0 (digits f n rest) ≡ parse_digits most n rest
unfolding digits
parse_digits-digits most zero n rest h k = elim h [ ]
parse_digits-digits most (suc f) n rest h k = elim (Bool-cases (ltb n 10)) [
  | inl small ↦
      let e : 0 * 10 + n ≡ n = omega arith in
      let step = parse_digits_step most 0 n rest (ltb→lt n 10 small) (omega arith) in
      rw small
        (subst (λ m. parse_digits most 0 ((48 + n) ∷ rest) ≡ parse_digits most m rest) e step)
  | inr large ↦
      let e : n / 10 * 10 + n % 10 ≡ n = omega arith in
      let step = parse_digits_step most (n / 10) (n % 10) rest (omega arith) (omega arith) in
      rw large (
        parse_digits-digits most f (n / 10) ((48 + n % 10) ∷ rest) (ground arith) (omega arith)
        ∙ subst (λ m. parse_digits most (n / 10) ((48 + n % 10) ∷ rest) ≡ parse_digits most m rest)
            e step)
]

abbrev IsDigit : ℕ → Type 0
IsDigit c = (48 ≤ c) × (c ≤ 57)

digits-All : (f n : ℕ) (rest : Text) → All IsDigit rest → All IsDigit (digits f n rest)
unfolding digits
digits-All zero n rest h = h
digits-All (suc f) n rest h = elim (Bool-cases (ltb n 10)) [
  | inl small ↦ rw small ((omega arith, omega (arith, ltb→lt n 10 small)), h)
  | inr large ↦
      rw large (digits-All f (n / 10) ((48 + n % 10) ∷ rest) ((omega arith, omega arith), h))
]

digit_solid : (c : ℕ) → IsDigit c → is_whitespace c ≡ false
unfolding is_whitespace
digit_solid c h = ground arith

digits-IsSolid : (s : Text) → All IsDigit s → IsSolid s
digits-IsSolid [] h = tt
digits-IsSolid (c ∷ s) h = (digit_solid c h.0, digits-IsSolid s h.1)

pub to_decimal-IsSolid : (n : ℕ) → IsSolid (to_decimal n)
unfolding to_decimal
to_decimal-IsSolid n = digits-IsSolid (digits (suc n) n []) (digits-All (suc n) n [] tt)

pub trim-to_decimal : (n : ℕ) → trim (to_decimal n) ≡ to_decimal n
trim-to_decimal n = trim_solid (to_decimal n) (to_decimal-IsSolid n)

digits_nonempty : (f n : ℕ) (rest : Text) → (rest ≢ []) ⊎ (0 < f) → digits f n rest ≢ []
unfolding digits
digits_nonempty zero n rest (inl h) = h
digits_nonempty zero n rest (inr h) = elim h [ ]
digits_nonempty (suc f) n rest h = elim (Bool-cases (ltb n 10)) [
  | inl small ↦ rw small (λ e. cc)
  | inr large ↦ rw large (digits_nonempty f (n / 10) ((48 + n % 10) ∷ rest) (inl (λ e. cc)))
]

-- A text of digits has no sign to strip.
parse_uint_digits :
    (most : ℕ) (s : Text) → All IsDigit s → s ≢ [] → parse_uint most s ≡ parse_digits most 0 s
unfolding parse_uint
parse_uint_digits most [] h k = absurd (k refl)
parse_uint_digits most (c ∷ []) h k = refl
parse_uint_digits most (c ∷ d ∷ s) h k = let e : (c == b'+') ≡ false = ground arith in rw e

-- Parsing what was printed gives the number back, if it is in range.
pub parse_uint-to_decimal : (most n : ℕ) → n ≤ most → parse_uint most (to_decimal n) ≡ ok n
unfolding to_decimal
parse_uint-to_decimal most n h =
    parse_uint_digits most (digits (suc n) n []) (digits-All (suc n) n [] tt)
      (digits_nonempty (suc n) n [] (inr (omega arith)))
    ∙ parse_digits-digits most (suc n) n [] (omega arith) h
    ∙ unfold parse_digits in refl

-- What is parsed is in range.
parse_digits-le :
    (most acc : ℕ) (s : Text) (n : ℕ) → acc ≤ most → parse_digits most acc s ≡ ok n → n ≤ most
unfolding parse_digits
parse_digits-le most acc [] n h e = ground arith
parse_digits-le most acc (c ∷ s) n h e =
    ground (arith, parse_digits-le most (acc * 10 + (c - 48)) s n)

pub parse_uint-le : (most : ℕ) (s : Text) (n : ℕ) → parse_uint most s ≡ ok n → n ≤ most
unfolding parse_uint
parse_uint-le most [] n e = cc
parse_uint-le most (c ∷ []) n e = parse_digits-le most 0 (c ∷ []) n (omega arith) e
parse_uint-le most (c ∷ d ∷ s) n e = elim (Bool-cases (c == b'+')) [
  | inl plus ↦ parse_digits-le most 0 (d ∷ s) n (omega arith) (rw plus at e)
  | inr bare ↦ parse_digits-le most 0 (c ∷ d ∷ s) n (omega arith) (rw bare at e)
]
