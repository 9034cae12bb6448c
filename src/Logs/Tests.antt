-- ===== src/Logs/Tests.antt =====
-- Logs that grow, are rotated and are cleared, for src/settings/log_tail.rs and src/app/logging.rs.
use proxybear.Base.{codes, none, List, [], ◌∷◌, refl, ◌≤◌, ◌+◌, ◌*◌, length, arith, ok, true, false}
use proxybear.Logs.Tail
use proxybear.Logs.Tail.{LogTail, contents, found, missing, unreadable, gone, broken}
use proxybear.Logs.Tail.Follow.{Change, fails, grows, restarts}
use proxybear.Logs.Writer
use proxybear.Logs.Writer.{write, rotate, write_file, write_bytes, Answers, Disk}
use proxybear.Logs.Writer.Limit.{step, Step, writes, clears_log, steps, named, steps-AreSmall}

-- Two lines are written, a read fails in between, and then the log is rotated.
abbrev rotated_log : List Change
rotated_log =
    grows (97 ∷ 10 ∷ [])
    ∷ fails (codes "denied")
    ∷ grows (98 ∷ 10 ∷ [])
    ∷ restarts (99 ∷ 10 ∷ [])
    ∷ []

abbrev empty_disk : Disk
empty_disk = record { files = []; path = none; old = none }

abbrev works : Answers
works = record { metadata = ok tt; removed = true; renamed = true; opened = ok tt; taken = ok 2 }

-- The rename fails, and the log is emptied.
abbrev stuck : Answers
stuck = record { metadata = ok tt; removed = false; renamed = false; opened = ok tt; taken = ok 2 }

abbrev some_writes : List Step
some_writes =
    writes works (97 ∷ 10 ∷ [])
    ∷ writes works (98 ∷ 10 ∷ [])
    ∷ clears_log
    ∷ writes stuck (99 ∷ 10 ∷ [])
    ∷ writes stuck (100 ∷ 10 ∷ [])
    ∷ []

steps-AreSmall_example :
    let d = (steps some_writes (Writer.new 3 empty_disk)).1 in
    length (named d.path d) + length (named d.old d) ≤ 2 * 3
unfolding Writer.new step write rotate write_file write_bytes Writer.clear_file
steps-AreSmall_example =
    steps-AreSmall 3 some_writes empty_disk tt tt
      (omega arith, (omega arith, (refl, (omega arith, (omega arith, tt)))))
