-- ===== src/Logs/Tail/Bounds.antt =====
-- How many lines src/settings/log_tail.rs keeps.
use proxybear.Base.{
  ◌-◌, ℕ, zero, suc, ◌≤◌, Bool-cases, inl, inr, List, [], ◌∷◌, Text, Option, none, some, length,
  length-append, length-drop, arith, ◌==◌,
}
use proxybear.Logs.Tail.Window.{make_room_lem}
use proxybear.Logs.Tail.{
  LogTail, max_log_lines, push_line, push_lines, Probe, found, missing, unreadable, contents,
  Opened, gone, broken, Outcome, added, not_found, failed, rewind, read_opened, read_rest, read_new,
  report, refresh, clear,
}

-- What may happen to the window: a read, or the button that clears the log.
pub data Use : Type 0 where
  reads : Probe → Use
  clears : Option Text → Use

unfoldable pub use_all : List Use → LogTail → LogTail
use_all [] t = t
use_all (reads p ∷ us) t = use_all us (refresh p t).0
use_all (clears e ∷ us) t = use_all us (clear e t).0

abbrev pub IsBounded : LogTail → Type 0
IsBounded t = length t.lines ≤ max_log_lines

length-push_line : (ls : List Text) (l : Text) → length (push_line ls l) ≤ max_log_lines
unfolding push_line
length-push_line ls l =
    rw (make_room_lem ls)
      (omega (arith, length-append _ (l ∷ []), length-drop (suc (length ls) - max_log_lines) ls))

length-push_lines :
    (ls more : List Text) → length ls ≤ max_log_lines → length (push_lines ls more) ≤ max_log_lines
unfolding push_lines
length-push_lines ls [] h = h
length-push_lines ls (l ∷ more) h = length-push_lines (push_line ls l) more (length-push_line ls l)

rewind-IsBounded : (len : ℕ) (t : LogTail) → IsBounded t → IsBounded (rewind len t)
unfolding rewind
rewind-IsBounded len t h = ground arith

read_opened-IsBounded :
    (len : ℕ) (o : Opened) (t : LogTail) → IsBounded t → IsBounded (read_opened len o t).0
unfolding read_opened
read_opened-IsBounded len gone t h = h
read_opened-IsBounded len (broken e) t h = h
read_opened-IsBounded len (contents bytes) t h = length-push_lines t.lines _ h

read_rest-IsBounded :
    (len : ℕ) (o : Opened) (t : LogTail) → IsBounded t → IsBounded (read_rest len o t).0
unfolding read_rest
read_rest-IsBounded len o t h = elim (Bool-cases (len == t.offset)) [
  | inl e ↦ rw (e, read_rest) h
  | inr e ↦ rw (e, read_rest) (read_opened-IsBounded len o t h)
]

report-IsBounded : (x : LogTail × Outcome) → IsBounded x.0 → IsBounded (report x).0
unfolding report
report-IsBounded (t, added zero) h = h
report-IsBounded (t, added (suc n)) h = h
report-IsBounded (t, not_found) h = h
report-IsBounded (t, failed e) h = h

refresh-IsBounded : (p : Probe) (t : LogTail) → IsBounded t → IsBounded (refresh p t).0
unfolding refresh read_new
refresh-IsBounded missing t h = report-IsBounded (t, not_found) h
refresh-IsBounded (unreadable e) t h = report-IsBounded (t, failed e) h
refresh-IsBounded (found len o) t h =
    report-IsBounded (read_rest len o (rewind len t))
      (read_rest-IsBounded len o (rewind len t) (rewind-IsBounded len t h))

clear-IsBounded : (e : Option Text) (t : LogTail) → IsBounded t → IsBounded (clear e t).0
unfolding clear
clear-IsBounded none t h = omega arith
clear-IsBounded (some e) t h = h

-- Whatever the file system answers and however often the log is cleared, a window that holds at most
-- `max_log_lines` lines goes on doing so.
use_all-IsBounded : (us : List Use) (t : LogTail) → IsBounded t → IsBounded (use_all us t)
unfolding use_all
use_all-IsBounded [] t h = h
use_all-IsBounded (reads p ∷ us) t h =
    use_all-IsBounded us (refresh p t).0 (refresh-IsBounded p t h)
use_all-IsBounded (clears e ∷ us) t h = use_all-IsBounded us (clear e t).0 (clear-IsBounded e t h)
