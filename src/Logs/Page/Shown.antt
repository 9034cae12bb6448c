-- ===== src/Logs/Page/Shown.antt =====
-- Which of the lines that src/app/logging.rs writes the page of src/settings/view/logs.rs shows.
use proxybear.Base.{
  any, text_eq, ℕ, ◌≤◌, ◌≡◌, ◌∙◌, ◌↔◌, refl, ap, true, not, ◌||◌, some, [], ◌∷◌, ◌++◌, Text, codes,
  replicate, is_empty, arith, leb,
}
use proxybear.Base.Trim.{IsSolid, is_whitespace}
use proxybear.Base.Search.{
  split_whitespace, split_whitespace-word, split_whitespace-spaces, contains, contains_iff,
  StandsIn,
}
use proxybear.Config.{LogLevel, error, warn, info, debug, trace}
use proxybear.Logs.Page.{
  is_none_or, less_severe, LineFilter, all, warnings, errors, line_level, shows, LogView, query,
  is_visible,
}

-- The names by which a line of the log gives its level.
abbrev pub level_name : LogLevel → Text
level_name error = codes "ERROR"
level_name warn = codes "WARN"
level_name info = codes "INFO"
level_name debug = codes "DEBUG"
level_name trace = codes "TRACE"

-- A line with this time and level: some spaces stand before the level, and a space behind it.
abbrev pub log_line : Text → ℕ → LogLevel → Text → Text
log_line time n level rest = time ++ 32 ∷ (replicate n 32 ++ (level_name level ++ 32 ∷ rest))

-- How verbose a level is, and the most verbose level that a filter shows.
abbrev pub verbosity : LogLevel → ℕ
verbosity error = 0
verbosity warn = 1
verbosity info = 2
verbosity debug = 3
verbosity trace = 4

abbrev pub limit : LineFilter → ℕ
limit all = 4
limit warnings = 1
limit errors = 0

-- A text without whitespace that has a character.
abbrev pub IsWord : Text → Type 0
IsWord [] = ⊥
IsWord (c ∷ w) = IsSolid (c ∷ w)

words-level :
    (level : LogLevel) (rest : Text)
    → split_whitespace (level_name level ++ 32 ∷ rest) ≡ level_name level ∷ split_whitespace rest
unfolding is_whitespace
words-level error rest = split_whitespace-word _ _ rest (refl, (refl, (refl, (refl, (refl, tt)))))
words-level warn rest = split_whitespace-word _ _ rest (refl, (refl, (refl, (refl, tt))))
words-level info rest = split_whitespace-word _ _ rest (refl, (refl, (refl, (refl, tt))))
words-level debug rest = split_whitespace-word _ _ rest (refl, (refl, (refl, (refl, (refl, tt)))))
words-level trace rest = split_whitespace-word _ _ rest (refl, (refl, (refl, (refl, (refl, tt)))))

line_level-log_line :
    (time : Text) (n : ℕ) (level : LogLevel) (rest : Text)
    → IsWord time
    → line_level (log_line time n level rest) ≡ some (level_name level)
unfolding line_level
line_level-log_line [] n level rest h = absurd h
line_level-log_line (c ∷ w) n level rest h =
    rw (split_whitespace-word c w (replicate n 32 ++ (level_name level ++ 32 ∷ rest)) h)
      (rw (split_whitespace-spaces n (level_name level ++ 32 ∷ rest)) (rw (words-level level rest)))

level_table :
    (f : LineFilter) (level : LogLevel)
    → not (any (text_eq (level_name level)) (less_severe f)) ≡ leb (verbosity level) (limit f)
unfolding less_severe
level_table all error = refl
level_table all warn = refl
level_table all info = refl
level_table all debug = refl
level_table all trace = refl
level_table warnings error = refl
level_table warnings warn = refl
level_table warnings info = refl
level_table warnings debug = refl
level_table warnings trace = refl
level_table errors error = refl
level_table errors warn = refl
level_table errors info = refl
level_table errors debug = refl
level_table errors trace = refl

shows-name :
    (f : LineFilter) (level : LogLevel) (line : Text)
    → line_level line ≡ some (level_name level)
    → shows f line ≡ leb (verbosity level) (limit f)
unfolding shows
shows-name f level line h =
    ap (λ x. is_none_or x (λ l. not (any (text_eq l) (less_severe f)))) h ∙ level_table f level

-- Nothing is found in every text.
found_iff : (s q : Text) → ((is_empty q || contains s q) ≡ true) ↔ StandsIn q s
found_iff s [] = ((λ e. ([], s, refl)), (λ e. refl))
found_iff s (c ∷ q) = contains_iff s (c ∷ q)

-- A line that the log writes is shown exactly if its level is at most as verbose as the filter allows
-- and the words that are searched, in lower case and without space around them, stand in it.
pub is_visible-log_line :
    (lower : Text → Text) (v : LogView) (time : Text) (n : ℕ) (level : LogLevel) (rest : Text)
    → IsWord time
    → (is_visible lower v (log_line time n level rest) ≡ true) ↔ (
        (verbosity level ≤ limit v.log_filter)
        × StandsIn (query lower v) (lower (log_line time n level rest)))
unfolding is_visible
is_visible-log_line lower v time n level rest h =
    let line = log_line time n level rest in
    let e = shows-name v.log_filter level line (line_level-log_line time n level rest h) in
    ground (arith, e, found_iff (lower line) (query lower v))
