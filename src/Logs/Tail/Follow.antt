-- ===== src/Logs/Tail/Follow.antt =====
-- The window of src/settings/log_tail.rs shows the last lines of the log, however often it reads.
use proxybear.Logs.Tail.Window.{last_lines, push_lines-last_lines}
use proxybear.Base.{
  ◌<◌, false, true, ltb, ◌==◌, ℕ, zero, suc, ◌≤◌, ◌≡◌, refl, sym, ◌∙◌, ap, Bool-cases, inl, inr,
  List, [], ◌∷◌, ◌++◌, append_assoc, append-nil, Text, length, length-append, drop-length-append,
  arith,
}
use proxybear.Base.Utf8.{
  from_utf8_lossy, from_utf8_lossy-append, from_utf8_lossy-last, from_utf8_lossy-nil,
}
use proxybear.Logs.Lines.{lines, lines-append}
use proxybear.Logs.Tail.{
  unreadable, read_rest, refresh, new, LogTail, max_log_lines, Probe, found, contents, Outcome,
  added, not_found, failed, rewind, new_lines, read_opened, read_new, report,
}

-- How many lines are shown stays bounded, whatever the file system answers.
abbrev pub IsBounded : LogTail → Type 0
IsBounded t = length t.lines ≤ max_log_lines

-- A whole file, seen at one moment.
abbrev pub seen : List ℕ → Probe
seen bytes = found (length bytes) (contents bytes)

-- The lines of a file.
abbrev pub lines_of : List ℕ → List Text
lines_of bytes = lines (from_utf8_lossy bytes)

-- Bytes that end with a line, or none.
pub data IsWhole (bytes : List ℕ) : Type 0 where
  none : bytes ≡ [] → IsWhole bytes
  ends : (s : List ℕ) → bytes ≡ s ++ 10 ∷ [] → IsWhole bytes

lines_of-append :
    (bytes more : List ℕ)
    → IsWhole bytes
    → lines_of (bytes ++ more) ≡ lines_of bytes ++ lines_of more
lines_of-append bytes more (none e) = rw e (rw from_utf8_lossy-nil (unfold lines in refl))
lines_of-append bytes more (ends s e) =
    let (t, f) = from_utf8_lossy-last s 10 (omega arith) in
    rw e (
      rw (append_assoc s (10 ∷ []) more) (
        rw (from_utf8_lossy-append s 10 more (omega arith)) (
          rw f rw (append_assoc t (10 ∷ []) (from_utf8_lossy more))
            (lines-append t (from_utf8_lossy more)))))

-- What the window holds once it has read a file.
record Follows (bytes : List ℕ) (t : LogTail) : Type 0 where
  pub offset : t.offset ≡ length bytes
  pub lines : t.lines ≡ last_lines (lines_of bytes)

lines-report : (x : LogTail × Outcome) → (report x).0.lines ≡ x.0.lines
unfolding report
lines-report (t, added zero) = refl
lines-report (t, added (suc n)) = refl
lines-report (t, not_found) = refl
lines-report (t, failed e) = refl

offset-report : (t : LogTail) (n : ℕ) → (report (t, added n)).0.offset ≡ t.offset
unfolding report
offset-report t zero = refl
offset-report t (suc n) = refl

report-Follows :
    (bytes : List ℕ) (t : LogTail) (n : ℕ) → Follows bytes t → Follows bytes (report (t, added n)).0
report-Follows bytes t n h = record {
  offset = offset-report t n ∙ h.offset;
  lines = lines-report (t, added n) ∙ h.lines;
}

rewind_not : (len : ℕ) (t : LogTail) → t.offset ≤ len → rewind len t ≡ t
unfolding rewind
rewind_not len t h = let e : ltb len t.offset ≡ false = ground arith in rw e

-- A read that begins behind the bytes that the window has followed.
read_opened-Follows :
    (bytes more : List ℕ) (t : LogTail)
    → IsWhole bytes
    → Follows bytes t
    → let x = read_opened (length (bytes ++ more)) (contents (bytes ++ more)) t in
      Follows (bytes ++ more) (report x).0
unfolding read_opened new_lines
read_opened-Follows bytes more t w h = report-Follows (bytes ++ more) _ _ (record {
  offset = refl;
  lines = rw h.offset (
      rw (drop-length-append bytes more) (
        rw h.lines (
          push_lines-last_lines (lines_of bytes) (lines_of more)
          ∙ ap last_lines (sym (lines_of-append bytes more w)))));
})

nil-length : (xs : List ℕ) → length xs ≡ 0 → xs ≡ []
nil-length [] h = refl
nil-length (x ∷ xs) h = absurd (omega arith)

read_rest-Follows :
    (bytes more : List ℕ) (t : LogTail)
    → IsWhole bytes
    → Follows bytes t
    → let x = read_rest (length (bytes ++ more)) (contents (bytes ++ more)) t in
      Follows (bytes ++ more) (report x).0
unfolding read_rest
read_rest-Follows bytes more t w h = elim (Bool-cases (length (bytes ++ more) == t.offset)) [
  | inr e ↦ rw (e, read_rest) (read_opened-Follows bytes more t w h)
  | inl e ↦
      let none_more : more ≡ [] =
        nil-length more (ground (arith, h.offset, length-append bytes more)) in
      rw (e, read_rest) (rw none_more (rw append-nil (report-Follows bytes t 0 h)))
]

-- The file has grown.
refresh-Follows :
    (bytes more : List ℕ) (t : LogTail)
    → IsWhole bytes
    → Follows bytes t
    → Follows (bytes ++ more) (refresh (seen (bytes ++ more)) t).0
unfolding refresh read_new
refresh-Follows bytes more t w h =
    let stay : rewind (length (bytes ++ more)) t ≡ t =
      rewind_not (length (bytes ++ more)) t (omega (arith, h.offset, length-append bytes more)) in
    rw stay (read_rest-Follows bytes more t w h)

new-Follows : (t : LogTail) → t.offset ≡ 0 → t.lines ≡ [] → Follows [] t
new-Follows t e f = record {
  offset = e;
  lines = f ∙ sym (rw from_utf8_lossy-nil (unfold lines in refl));
}

-- Another file stands there, shorter than the one before.
refresh_restart :
    (bytes : List ℕ) (t : LogTail)
    → length bytes < t.offset
    → Follows bytes (refresh (seen bytes) t).0
unfolding refresh read_new rewind
refresh_restart bytes t h =
    let e : ltb (length bytes) t.offset ≡ true = ground arith in
    rw (e, rewind) (read_rest-Follows [] bytes _ (none refl) (new-Follows _ refl refl))

-- What becomes of the file before a read that sees it at one moment: it grows, or another takes its
-- place; or the file is there, and the read fails.
pub data Change : Type 0 where
  grows : List ℕ → Change
  restarts : List ℕ → Change
  fails : Text → Change

abbrev pub changed : Change → List ℕ → List ℕ
changed (grows more) bytes = bytes ++ more
changed (restarts other) bytes = other
changed (fails e) bytes = bytes

-- What the read is answered.
abbrev pub answer : Change → List ℕ → Probe
answer (grows more) bytes = seen (bytes ++ more)
answer (restarts other) bytes = seen other
answer (fails e) bytes = unreadable e

-- Whole lines are written, and a file that takes the other's place is shorter when it is seen first.
abbrev pub IsLegal : List ℕ → Change → Type 0
IsLegal bytes (grows more) = IsWhole (bytes ++ more)
IsLegal bytes (fails e) = Unit {0}
IsLegal bytes (restarts other) = IsWhole other × (length other < length bytes)

abbrev pub AreLegal : List ℕ → List Change → Type 0
AreLegal bytes [] = Unit {0}
AreLegal bytes (c ∷ cs) = IsLegal bytes c × AreLegal (changed c bytes) cs

-- The file after all changes, and the window that reads after each.
abbrev pub after : List Change → List ℕ → List ℕ
after [] bytes = bytes
after (c ∷ cs) bytes = after cs (changed c bytes)

unfoldable pub follow : List Change → List ℕ → LogTail → LogTail
follow [] bytes t = t
follow (c ∷ cs) bytes t = follow cs (changed c bytes) (refresh (answer c bytes) t).0

change-Follows :
    (c : Change) (bytes : List ℕ) (t : LogTail)
    → IsLegal bytes c
    → IsWhole bytes
    → Follows bytes t
    → IsWhole (changed c bytes) × Follows (changed c bytes) (refresh (answer c bytes) t).0
unfolding read_new
change-Follows (grows more) bytes t l w h = (l, refresh-Follows bytes more t w h)
change-Follows (fails e) bytes t l w h =
    (w, unfold refresh in record { offset = h.offset; lines = h.lines })
change-Follows (restarts other) bytes t l w h =
    (l.0, refresh_restart other t (omega (arith, h.offset, l.1)))

follow-Follows :
    (cs : List Change) (bytes : List ℕ) (t : LogTail)
    → AreLegal bytes cs
    → IsWhole bytes
    → Follows bytes t
    → Follows (after cs bytes) (follow cs bytes t)
unfolding follow
follow-Follows [] bytes t l w h = h
follow-Follows (c ∷ cs) bytes t l w h =
    let (w', h') = change-Follows c bytes t l.0 w h in
    follow-Follows cs (changed c bytes) (refresh (answer c bytes) t).0 l.1 w' h'

pub follow-last_lines :
    (cs : List Change)
    → AreLegal [] cs
    → ((follow cs [] new).lines ≡ last_lines (lines_of (after cs [])))
      × ((follow cs [] new).offset ≡ length (after cs []))
unfolding new
follow-last_lines cs l =
    let h = follow-Follows cs [] new l (none refl) (new-Follows new refl refl) in
    (h.lines, h.offset)
