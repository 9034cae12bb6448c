-- ===== src/Logs/Writer.antt =====
-- src/app/logging.rs: `RotatingWriter`, over the two names of the log and the files behind them. A
-- handle stays with its file when the file gets another name.
mod Small
mod Rotation
pub mod Limit
use proxybear.Base.{
  ℕ, ◌+◌, ◌-◌, Bool, true, false, Option, none, some, List, [], ◌∷◌, ◌++◌, Text, codes, length,
  get_elem?, set, replicate, take, drop, ltb, if◌then◌else◌, Result, ok, err,
}

-- `files` holds the bytes of every file that was made; `path` and `old` are the files that stand under
-- the log's name and under `.old.log`.
pub record Disk : Type 0 where
  pub files : List (List ℕ)
  pub path : Option ℕ
  pub old : Option ℕ

-- A handle: its file, and the place of the next write, or `none` if it appends.
pub record RotatingWriter : Type 0 where
  pub file : ℕ
  pub cursor : Option ℕ
  pub max_size : ℕ

abbrev pub bytes_at : Option (List ℕ) → List ℕ
bytes_at none = []
bytes_at (some bytes) = bytes

abbrev pub bytes_of : Disk → ℕ → List ℕ
bytes_of d id = bytes_at (get_elem? d.files id)

-- What the system answers while one `write` runs: whether each step succeeds, and how many bytes the
-- last one takes.
pub record Answers : Type 0 where
  pub metadata : Result (Unit {0})
  pub removed : Bool
  pub renamed : Bool
  pub opened : Result (Unit {0})
  pub taken : Result ℕ

-- `File::write`; behind the end of the file the gap reads as zeros.
unfoldable pub write_bytes : List ℕ → RotatingWriter → Disk → RotatingWriter × Disk
write_bytes buf w d = elim w.cursor [
  | none ↦ (w, record d { files = set d.files w.file (bytes_of d w.file ++ buf) })
  | some at ↦
      let old = bytes_of d w.file in
      let start = take at old ++ replicate (at - length old) 0 in
      (
        record w { cursor = some (at + length buf) },
        record d { files = set d.files w.file (start ++ (buf ++ drop (at + length buf) old)) },
      )
]

unfoldable pub write_file :
    Result ℕ → List ℕ → RotatingWriter × Disk → (RotatingWriter × Disk) × Result ℕ
unfolding write_bytes
write_file (err e) buf (w, d) = ((w, d), err e)
write_file (ok n) buf (w, d) = (write_bytes (take n buf) w d, ok (length (take n buf)))

-- `open` under the log's name, which makes a file if none stands there; `truncate` empties it.
abbrev pub open_file : Option ℕ → Bool → Disk → ℕ × Disk
open_file none truncate d =
    (length d.files, record d { files = d.files ++ [] ∷ []; path = some (length d.files) })
open_file (some id) true d = (id, record d { files = set d.files id [] })
open_file (some id) false d = (id, d)

-- `fs::remove_file` of the old log, whose failure is ignored; `fs::rename` replaces it in any case.
abbrev pub without_old : Bool → Disk → Disk
without_old true d = record d { old = none }
without_old false d = d

-- The rename fails where nothing stands under the log's name.
abbrev pub rename_file : Bool → Option ℕ → Disk → Option Disk
rename_file true (some id) d = some (record d { path = none; old = some id })
rename_file true none d = none
rename_file false path d = none

-- The log is opened again: to append after a rename, and else emptied, with a cursor.
abbrev pub reopen : Option Disk → Disk → RotatingWriter → RotatingWriter × Disk
reopen (some d) before w =
    let (id, d') = open_file d.path false d in (record w { file = id; cursor = none }, d')
reopen none before w =
    let (id, d') = open_file before.path true before in
    (record w { file = id; cursor = some 0 }, d')

-- If the log cannot be opened again, the rename has been done, and the handle stays.
abbrev pub renamed_or : Option Disk → Disk → Disk
renamed_or (some d) before = d
renamed_or none before = before

unfoldable pub rotate :
    Answers → RotatingWriter → Disk → (RotatingWriter × Disk) × Result (Unit {0})
rotate a w d =
    let d' = without_old a.removed d in
    let renamed = rename_file a.renamed d'.path d' in
    elim a.opened [
      | ok u ↦ (reopen renamed d' w, ok tt)
      | err e ↦ ((w, renamed_or renamed d'), err e)
    ]

abbrev pub then_write :
    Answers
    → List ℕ
    → (RotatingWriter × Disk) × Result (Unit {0})
    → (RotatingWriter × Disk) × Result ℕ
then_write a buf ((w, d), err e) = ((w, d), err e)
then_write a buf ((w, d), ok u) = write_file a.taken buf (w, d)

unfoldable pub write : Answers → List ℕ → RotatingWriter → Disk → (RotatingWriter × Disk) × Result ℕ
unfolding write_file rotate
write a buf w d = elim a.metadata [
  | err e ↦ ((w, d), err e)
  | ok u ↦
      if ltb w.max_size (length (bytes_of d w.file) + length buf)
      then then_write a buf (rotate a w d)
      else write_file a.taken buf (w, d)
]

-- `RotatingWriter::new`.
unfoldable pub new : ℕ → Disk → RotatingWriter × Disk
new max_size d =
    let (id, d') = open_file d.path false d in
    (record { file = id; cursor = none; max_size = max_size }, d')

-- "Clear Log" in the settings window empties the file under the log's name.
unfoldable pub clear_file : Disk → Disk
clear_file d = (open_file d.path true d).1
