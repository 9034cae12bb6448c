-- ===== src/App/Tray/Bytes.antt =====
-- src/app/presentation.rs: `format_bytes`. A division of an `f64` by 1024 is exact, so that the number
-- is rounded when it becomes an `f64`, and when it is printed with one digit behind the point.
use proxybear.Base.{
  ℕ, zero, suc, ◌+◌, ◌*◌, ◌/◌, ◌%◌, ◌^◌, ◌≤◌, ◌<◌, ◌≡◌, ◌⊎◌, inl, inr, refl, true, false,
  Bool-cases, ◌++◌, Text, codes, arith, ltb, ◌==◌, if◌then◌else◌,
}
use proxybear.Base.Decimal.{to_decimal}

-- The nearest integer to `n / d`, an even one at a tie.
unfoldable pub round_div : ℕ → ℕ → ℕ
round_div n d =
    if ltb (2 * (n % d)) d
    then n / d
    else if ltb d (2 * (n % d))
    then n / d + 1
    else n / d + n / d % 2

-- How many bits of a number of at most 64 do not fit into the 53 of an `f64`.
unfoldable pub spare_bits : ℕ → ℕ → ℕ
spare_bits zero n = 0
spare_bits (suc more) n =
    let rest = spare_bits more (n / 2) in if ltb n (2 ^ 53) then 0 else suc rest

-- `bytes as f64`.
unfoldable pub to_f64 : ℕ → ℕ
unfolding round_div spare_bits
to_f64 n = let ulp = 2 ^ spare_bits 11 n in round_div n ulp * ulp

-- How often the loop divides.
unfoldable pub unit_of : ℕ → ℕ
unit_of size =
    if ltb size 0x400
    then 0
    else if ltb size 0x100000
    then 1
    else if ltb size 0x40000000
    then 2
    else 3

abbrev pub unit_name : ℕ → Text
unit_name zero = codes "B"
unit_name (suc zero) = codes "KiB"
unit_name (suc (suc zero)) = codes "MiB"
unit_name (suc (suc (suc n))) = codes "GiB"

-- `{:.1}` of a number of tenths.
abbrev pub tenths_text : ℕ → Text
tenths_text t = to_decimal (t / 10) ++ (codes "." ++ to_decimal (t % 10))

unfoldable pub format_bytes : ℕ → Text
unfolding to_f64 unit_of round_div
format_bytes bytes =
    let size = to_f64 bytes in
    let unit = unit_of size in
    if unit == 0
    then to_decimal bytes ++ codes " B"
    else tenths_text (round_div (size * 10) (1024 ^ unit)) ++ (codes " " ++ unit_name unit)

to_f64-small : (n : ℕ) → n < 2 ^ 53 → to_f64 n ≡ n
unfolding to_f64 spare_bits round_div
to_f64-small n h = let e : ltb n (2 ^ 53) ≡ true = ground arith in rw e (ground arith)

-- What is printed is the number of tenths of a unit that is nearest to the bytes, for the largest unit
-- that they fill.
pub record Printed (n u : ℕ) : Type 0 where
  pub tenths : ℕ
  pub text : format_bytes n ≡ tenths_text tenths ++ (codes " " ++ unit_name u)
  pub fills : 1024 ^ u ≤ n
  pub largest : (u ≡ 3) ⊎ (n < 1024 ^ (u + 1))
  pub above : 2 * (tenths * 1024 ^ u) ≤ 20 * n + 1024 ^ u
  pub below : 20 * n ≤ 2 * (tenths * 1024 ^ u) + 1024 ^ u

-- Rounding is off by half of the divisor at most.
abbrev IsNear : ℕ → ℕ → Type 0
IsNear n d = (2 * (round_div n d * d) ≤ 2 * n + d) × (2 * n ≤ 2 * (round_div n d * d) + d)

round_kib : (n : ℕ) → IsNear n 0x400
unfolding round_div
round_kib n = ground arith

round_mib : (n : ℕ) → IsNear n 0x100000
unfolding round_div
round_mib n = ground arith

round_gib : (n : ℕ) → IsNear n 0x40000000
unfolding round_div
round_gib n = ground arith

format_bytes-unit :
    (n u : ℕ)
    → n < 2 ^ 53
    → unit_of n ≡ suc u
    → format_bytes n
      ≡ tenths_text (round_div (n * 10) (1024 ^ suc u)) ++ (codes " " ++ unit_name (suc u))
unfolding format_bytes
format_bytes-unit n u h e =
    let f : (suc u == 0) ≡ false = ground arith in rw (to_f64-small n h, e, f, format_bytes) refl

format_bytes-small :
    (n : ℕ) → n < 2 ^ 53 → ltb n 0x400 ≡ true → format_bytes n ≡ to_decimal n ++ codes " B"
unfolding format_bytes unit_of
format_bytes-small n h b = rw (to_f64-small n h, b, format_bytes) refl

-- A number of bytes below 2^53 is printed as it is if it is below 1024, and otherwise as the number of
-- tenths of a unit that is nearest to it, for the largest unit that it fills.
pub format_bytes-Printed :
    (n : ℕ)
    → n < 2 ^ 53
    → ((n < 1024) × (format_bytes n ≡ to_decimal n ++ codes " B"))
      ⊎ ((u : ℕ) × (0 < u) × Printed n u)
format_bytes-Printed n h = elim (Bool-cases (ltb n 0x400)) [
  | inl b ↦ inl (ground arith, format_bytes-small n h b)
  | inr b ↦ elim (Bool-cases (ltb n 0x100000)) [
    | inl k ↦ inr (
      1,
      omega arith,
      record {
        tenths = round_div (n * 10) 0x400;
        text = format_bytes-unit n 0 h (unfold unit_of in rw (b, k) refl);
        fills = ground arith;
        largest = inr (ground arith);
        above = omega (arith, round_kib (n * 10));
        below = omega (arith, round_kib (n * 10));
      },
    )
    | inr k ↦ elim (Bool-cases (ltb n 0x40000000)) [
      | inl m ↦ inr (
        2,
        omega arith,
        record {
          tenths = round_div (n * 10) 0x100000;
          text = format_bytes-unit n 1 h (unfold unit_of in rw (b, k, m) refl);
          fills = ground arith;
          largest = inr (ground arith);
          above = omega (arith, round_mib (n * 10));
          below = omega (arith, round_mib (n * 10));
        },
      )
      | inr m ↦ inr (
        3,
        omega arith,
        record {
          tenths = round_div (n * 10) 0x40000000;
          text = format_bytes-unit n 2 h (unfold unit_of in rw (b, k, m) refl);
          fills = ground arith;
          largest = inl refl;
          above = omega (arith, round_gib (n * 10));
          below = omega (arith, round_gib (n * 10));
        },
      )
    ]
  ]
]
