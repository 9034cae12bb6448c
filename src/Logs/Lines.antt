-- ===== src/Logs/Lines.antt =====
-- `str::lines` of the Rust standard library, as src/settings/log_tail.rs uses it.
use proxybear.Base.{
  ℕ, ◌≡◌, refl, ◌≢◌, Bool, false, ◌&&◌, List, [], ◌∷◌, ◌++◌, Text, ◌==◌, if◌then◌else◌, arith,
}

-- A character in front of the first line.
abbrev pub cons_head : ℕ → List Text → List Text
cons_head c [] = (c ∷ []) ∷ []
cons_head c (l ∷ ls) = (c ∷ l) ∷ ls

abbrev pub starts_newline : Text → Bool
starts_newline [] = false
starts_newline (c ∷ s) = c == 10

-- A line ends with `\n` or `\r\n`; the last one may go without.
unfoldable pub lines : Text → List Text
lines [] = []
lines (c ∷ s) =
    let rest = lines s in
    if c == 10 then [] ∷ rest else if c == 13 && starts_newline s then rest else cons_head c rest

cons_head-append :
    (c : ℕ) (xs ys : List Text) → xs ≢ [] → cons_head c (xs ++ ys) ≡ cons_head c xs ++ ys
cons_head-append c [] ys h = absurd (h refl)
cons_head-append c (x ∷ xs) ys h = refl

cons_head-ne : (c : ℕ) (xs : List Text) → cons_head c xs ≢ []
cons_head-ne c [] e = cc
cons_head-ne c (x ∷ xs) e = cc

lines-ne : (s : Text) → lines (s ++ 10 ∷ []) ≢ []
unfolding lines
lines-ne [] e = cc
lines-ne (c ∷ s) e = ground (arith, lines-ne s, cons_head-ne c (lines (s ++ 10 ∷ [])))

starts_newline-append : (s t : Text) → starts_newline (s ++ 10 ∷ t) ≡ starts_newline (s ++ 10 ∷ [])
starts_newline-append [] t = refl
starts_newline-append (c ∷ s) t = refl

-- Behind the end of a line the lines are those of the rest.
pub lines-append : (s t : Text) → lines (s ++ 10 ∷ t) ≡ lines (s ++ 10 ∷ []) ++ lines t
unfolding lines
lines-append [] t = refl
lines-append (c ∷ s) t = ground (
  arith,
  lines-append s t,
  starts_newline-append s t,
  cons_head-append c (lines (s ++ 10 ∷ [])) (lines t) (lines-ne s),
)
