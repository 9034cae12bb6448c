-- ===== src/Logs/Tail.antt =====
-- src/settings/log_tail.rs: the lines of the log that the settings window shows.
pub mod Window
pub mod Follow
pub mod Bounds
use proxybear.Base.{
  ℕ, zero, suc, ◌+◌, Bool, true, false, Option, none, some, List, [], ◌∷◌, ◌++◌, Text, codes,
  length, drop, leb, ltb, ◌==◌, is_empty, if◌then◌else◌,
}
use proxybear.Base.Decimal.{to_decimal}
use proxybear.Base.Utf8.{from_utf8_lossy}
use proxybear.Logs.Lines.{lines}

abbrev pub max_log_lines : ℕ
max_log_lines = 400

-- The file's path is left out, which never changes.
pub record LogTail : Type 0 where
  pub offset : ℕ
  pub lines : List Text
  pub status : Text
  pub error : Option Text

unfoldable pub new : LogTail
new = record { offset = 0; lines = []; status = codes "Waiting for log file"; error = none }

-- `pop_front` until there is room.
unfoldable pub make_room : List Text → List Text
make_room [] = []
make_room (l ∷ ls) =
    let rest = make_room ls in if leb max_log_lines (length (l ∷ ls)) then rest else l ∷ ls

unfoldable pub push_line : List Text → Text → List Text
unfolding make_room
push_line ls line = make_room ls ++ line ∷ []

unfoldable pub push_lines : List Text → List Text → List Text
push_lines ls [] = ls
push_lines ls (line ∷ more) = push_lines (push_line ls line) more

-- What the file system answers: to the query of the length, and, by then, to opening and reading, with
-- the bytes that the file holds at that time.
pub data Opened : Type 0 where
  gone : Opened
  broken : Text → Opened
  contents : List ℕ → Opened

pub data Probe : Type 0 where
  missing : Probe
  unreadable : Text → Probe
  found : ℕ → Opened → Probe

-- `io::Result<usize>`, by the kind of the error.
pub data Outcome : Type 0 where
  added : ℕ → Outcome
  not_found : Outcome
  failed : Text → Outcome

-- A file that is shorter than before is read from its start.
unfoldable pub rewind : ℕ → LogTail → LogTail
rewind len t =
    if ltb len t.offset
    then record t { offset = 0; lines = []; status = codes "Log rotated or truncated" }
    else t

-- The lines behind the offset.
unfoldable pub new_lines : List ℕ → ℕ → List Text
new_lines bytes offset = lines (from_utf8_lossy (drop offset bytes))

unfoldable pub read_opened : ℕ → Opened → LogTail → LogTail × Outcome
unfolding new_lines
read_opened len gone t = (t, not_found)
read_opened len (broken e) t = (t, failed e)
read_opened len (contents bytes) t = (
  record t { offset = len; lines = push_lines t.lines (new_lines bytes t.offset) },
  added (length (new_lines bytes t.offset)),
)

-- `read_new` after the file was found not to be shorter than the offset.
unfoldable pub read_rest : ℕ → Opened → LogTail → LogTail × Outcome
unfolding read_opened
read_rest len opened t = if len == t.offset then (t, added 0) else read_opened len opened t

unfoldable pub read_new : Probe → LogTail → LogTail × Outcome
unfolding rewind read_rest
read_new missing t = (t, not_found)
read_new (unreadable e) t = (t, failed e)
read_new (found len opened) t = read_rest len opened (rewind len t)

-- What the user is told of a read.
unfoldable pub report : LogTail × Outcome → LogTail × ℕ
report (t, added zero) = (
  record t {
    error = none;
    status =
        if is_empty t.lines
        then codes "Log file is empty"
        else codes "Live, " ++ (to_decimal (length t.lines) ++ codes " lines");
  },
  0,
)
report (t, added (suc n)) = (
  record t {
    error = none;
    status =
        codes "Live, "
        ++ (to_decimal (length t.lines)
            ++ (codes " lines, " ++ (to_decimal (suc n) ++ codes " new")));
  },
  suc n,
)
report (t, not_found) = (record t { offset = 0; error = none; status = codes "No log file yet" }, 0)
report (t, failed e) = (
  record t { error = some (codes "Could not read log: " ++ e); status = codes "Log read error" },
  0,
)

unfoldable pub refresh : Probe → LogTail → LogTail × ℕ
unfolding report
refresh p t = report (read_new p t)

-- `clear`, once the file is truncated; where that fails nothing changes.
unfoldable pub clear : Option Text → LogTail → LogTail × Option Text
clear none t = (record { offset = 0; lines = []; status = codes "Log cleared"; error = none }, none)
clear (some e) t = (t, some e)
