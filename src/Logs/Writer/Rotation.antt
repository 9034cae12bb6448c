-- ===== src/Logs/Writer/Rotation.antt =====
-- The rotation of src/app/logging.rs leaves a small, empty log.
use proxybear.Base.{
  ◌+◌, ◌≤◌, ◌<◌, ◌≡◌, some, arith, ltb, Bool-cases, inl, inr, length-append, length-set, Bool, true,
  false, Result-cases, Option, none, List, ℕ, [], ◌∷◌, ◌++◌, length, set,
}
use proxybear.Logs.Writer.{
  Disk, RotatingWriter, bytes_of, Answers, write, without_old, rename_file, reopen, renamed_or,
  rotate, then_write,
}
use proxybear.Logs.Writer.Small.{
  IsWithin, IsFine, AreSmall, handle, write_file-IsFine, set-AreSmall, append-AreSmall, set_nil,
  append_nil_at,
}

-- After a rotation the log is an empty file.
abbrev pub IsFresh : ℕ → RotatingWriter → Disk → Type 0
IsFresh m w d = IsFine m w d × (bytes_of d w.file ≡ [])

abbrev pub disk : List (List ℕ) → Option ℕ → Option ℕ → Disk
disk files path old = record { files = files; path = path; old = old }

pub made-IsFresh :
    (m : ℕ) (w : RotatingWriter) (files : List (List ℕ)) (old cursor : Option ℕ)
    → w.max_size ≡ m
    → AreSmall m files
    → IsWithin cursor 0
    → IsFresh m
        (handle (length files) cursor w.max_size)
        (disk (files ++ [] ∷ []) (some (length files)) old)
made-IsFresh m w files old cursor e s c = (
  record {
    max = e;
    small = append-AreSmall m files s;
    path = omega (arith, length-append files ([] ∷ []));
    exists = omega (arith, length-append files ([] ∷ []));
    within = rw (append_nil_at files) c;
  },
  append_nil_at files,
)

emptied-IsFresh :
    (m : ℕ) (w : RotatingWriter) (files : List (List ℕ)) (id : ℕ) (old : Option ℕ)
    → w.max_size ≡ m
    → AreSmall m files
    → id < length files
    → IsFresh m (handle id (some 0) w.max_size) (disk (set files id []) (some id) old)
emptied-IsFresh m w files id old e s r = (
  record {
    max = e;
    small = set-AreSmall m files id [] (omega arith) s;
    path = omega (arith, r, length-set files id []);
    exists = omega (arith, r, length-set files id []);
    within = omega arith;
  },
  set_nil files id,
)

reopen-IsFresh :
    (m : ℕ) (renamed : Bool) (w : RotatingWriter) (files : List (List ℕ)) (path old : Option ℕ)
    → IsFine m w (disk files path old)
    → let d = disk files path old in
      let x = reopen (rename_file renamed path d) d w in IsFresh m x.0 x.1
reopen-IsFresh m true w files none old h =
    made-IsFresh m w files old (some 0) h.max h.small (omega arith)
reopen-IsFresh m true w files (some id) old h =
    made-IsFresh m w files (some id) none h.max h.small tt
reopen-IsFresh m false w files none old h =
    made-IsFresh m w files old (some 0) h.max h.small (omega arith)
reopen-IsFresh m false w files (some id) old h =
    emptied-IsFresh m w files id old h.max h.small h.path

renamed-IsFine :
    (m : ℕ) (renamed : Bool) (w : RotatingWriter) (files : List (List ℕ)) (path old : Option ℕ)
    → IsFine m w (disk files path old)
    → let d = disk files path old in IsFine m w (renamed_or (rename_file renamed path d) d)
renamed-IsFine m true w files none old h = h
renamed-IsFine m true w files (some id) old h = record {
  max = h.max;
  small = h.small;
  path = tt;
  exists = h.exists;
  within = h.within;
}
renamed-IsFine m false w files path old h = h

without_old-IsFine :
    (m : ℕ) (removed : Bool) (w : RotatingWriter) (d : Disk)
    → IsFine m w d
    → IsFine m w (without_old removed d)
without_old-IsFine m true w d h = record {
  max = h.max;
  small = h.small;
  path = h.path;
  exists = h.exists;
  within = h.within;
}
without_old-IsFine m false w d h = h

rotated-IsFine :
    (m : ℕ) (a : Answers) (buf : List ℕ) (w : RotatingWriter) (d : Disk)
    → length buf ≤ m
    → IsFine m w d
    → let x = then_write a buf (rotate a w d) in IsFine m x.0.0 x.0.1
unfolding rotate
rotated-IsFine m a buf w d b h =
    let d' = without_old a.removed d in
    let h' = without_old-IsFine m a.removed w d h in
    elim (Result-cases a.opened) [
      | inl (u, e) ↦
          let (f, n) = reopen-IsFresh m a.renamed w d'.files d'.path d'.old h' in
          let x = reopen (rename_file a.renamed d'.path d') d' w in
          rw (e, rotate) (write_file-IsFine m a.taken buf x.0 x.1 f (rw n (omega (arith, b))))
      | inr (u, e) ↦ rw (e, rotate) (renamed-IsFine m a.renamed w d'.files d'.path d'.old h')
    ]

pub write-IsFine :
    (m : ℕ) (a : Answers) (buf : List ℕ) (w : RotatingWriter) (d : Disk)
    → length buf ≤ m
    → IsFine m w d
    → let x = write a buf w d in IsFine m x.0.0 x.0.1
unfolding write
write-IsFine m a buf w d b h = elim (Result-cases a.metadata) [
  | inr (u, e) ↦ rw (e, write) h
  | inl (u, e) ↦ elim (Bool-cases (ltb w.max_size (length (bytes_of d w.file) + length buf))) [
    | inl t ↦ rw (e, t, write) (rotated-IsFine m a buf w d b h)
    | inr t ↦ rw (e, t, write) (write_file-IsFine m a.taken buf w d h (ground (arith, h.max)))
  ]
]
