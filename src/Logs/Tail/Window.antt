-- ===== src/Logs/Tail/Window.antt =====
-- `push_line` of src/settings/log_tail.rs keeps the last lines of all that were pushed.
use proxybear.Base.{
  ℕ, zero, suc, ◌+◌, ◌-◌, ◌≤◌, ◌≡◌, refl, sym, ◌∙◌, ap, Bool-cases, inl, inr, List, [], ◌∷◌, ◌++◌,
  append_assoc, append-nil, Text, length, length-append, length-drop, drop, leb, arith,
}
use proxybear.Logs.Tail.{max_log_lines, make_room, push_line, push_lines}

-- The last `max_log_lines` of the lines.
abbrev pub last_lines : List Text → List Text
last_lines ls = drop (length ls - max_log_lines) ls

drop-zero {ℓ} : {A : Type ℓ} (xs : List A) (n : ℕ) → n ≡ 0 → drop n xs ≡ xs
drop-zero xs n e = rw e

drop-nil {ℓ} : {A : Type ℓ} (n : ℕ) → drop {A = A} n [] ≡ []
drop-nil zero = refl
drop-nil (suc n) = refl

drop-drop {ℓ} : {A : Type ℓ} (a b : ℕ) (xs : List A) → drop a (drop b xs) ≡ drop (b + a) xs
drop-drop a zero xs = let e : 0 + a ≡ a = omega arith in rw e
drop-drop a (suc b) [] = drop-nil a ∙ sym (drop-nil (suc b + a))
drop-drop a (suc b) (x ∷ xs) =
    let e : suc b + a ≡ suc (b + a) = omega arith in rw e (drop-drop a b xs)

drop-append {ℓ} :
    {A : Type ℓ} (n : ℕ) (xs ys : List A) → n ≤ length xs → drop n (xs ++ ys) ≡ drop n xs ++ ys
drop-append zero xs ys h = refl
drop-append (suc n) [] ys h = absurd (omega arith)
drop-append (suc n) (x ∷ xs) ys h = drop-append n xs ys (omega arith)

pub make_room_lem : (ls : List Text) → make_room ls ≡ drop (suc (length ls) - max_log_lines) ls
unfolding make_room
make_room_lem [] = refl
make_room_lem (l ∷ ls) = elim (Bool-cases (leb max_log_lines (length (l ∷ ls)))) [
  | inl e ↦
      let k : suc (length (l ∷ ls)) - max_log_lines ≡ suc (suc (length ls) - max_log_lines) =
        ground arith in
      rw (e, make_room) (rw k (make_room_lem ls))
  | inr e ↦
      let k : suc (length (l ∷ ls)) - max_log_lines ≡ 0 = ground arith in rw (e, make_room) (rw k)
]

push_line-last_lines :
    (ls : List Text) (l : Text) → push_line (last_lines ls) l ≡ last_lines (ls ++ l ∷ [])
unfolding push_line
push_line-last_lines ls l =
    let b = length ls - max_log_lines in
    let n : length (drop b ls) ≡ length ls - b = length-drop b ls in
    let k : b + (suc (length (drop b ls)) - max_log_lines) ≡ length (ls ++ l ∷ []) - max_log_lines =
      omega (arith, n, length-append ls (l ∷ [])) in
    rw (make_room_lem (drop b ls)) (
      rw (drop-drop (suc (length (drop b ls)) - max_log_lines) b ls) (
        rw k (
          sym (
            drop-append (length (ls ++ l ∷ []) - max_log_lines) ls (l ∷ [])
              (omega (arith, length-append ls (l ∷ [])))))))

pub push_lines-last_lines :
    (ls more : List Text) → push_lines (last_lines ls) more ≡ last_lines (ls ++ more)
unfolding push_lines
push_lines-last_lines ls [] = rw append-nil
push_lines-last_lines ls (l ∷ more) =
    rw (push_line-last_lines ls l)
      (push_lines-last_lines (ls ++ l ∷ []) more ∙ ap last_lines (append_assoc ls (l ∷ []) more))
