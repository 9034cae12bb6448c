-- ===== src/Logs/Writer/Small.antt =====
-- The files of src/app/logging.rs are small, and a write that fits leaves them so.
use proxybear.Base.{
  ◌+◌, ◌-◌, ◌≤◌, ◌<◌, ◌≡◌, refl, ap, All, some, arith, length-append, length-take, length-take_le,
  length-replicate, length-drop, length-set, get_elem?-set_self, take, drop, replicate, ok, err,
  Result, Option, none, List, ℕ, [], ◌∷◌, ◌++◌, length, get_elem?, set, zero, suc,
}
use proxybear.Logs.Writer.{Disk, RotatingWriter, bytes_at, bytes_of, write_bytes, write_file}

abbrev pub AreSmall : ℕ → List (List ℕ) → Type 0
AreSmall m = All (λ bytes. length bytes ≤ m)

pub bytes_of-AreSmall :
    (m : ℕ) (files : List (List ℕ)) (id : ℕ)
    → AreSmall m files
    → length (bytes_at (get_elem? files id)) ≤ m
bytes_of-AreSmall m [] id h = omega arith
bytes_of-AreSmall m (f ∷ fs) zero h = h.0
bytes_of-AreSmall m (f ∷ fs) (suc id) h = bytes_of-AreSmall m fs id h.1

pub set-AreSmall :
    (m : ℕ) (files : List (List ℕ)) (id : ℕ) (bytes : List ℕ)
    → length bytes ≤ m
    → AreSmall m files
    → AreSmall m (set files id bytes)
set-AreSmall m [] id bytes b h = tt
set-AreSmall m (f ∷ fs) zero bytes b h = (b, h.1)
set-AreSmall m (f ∷ fs) (suc id) bytes b h = (h.0, set-AreSmall m fs id bytes b h.1)

pub append-AreSmall :
    (m : ℕ) (files : List (List ℕ)) → AreSmall m files → AreSmall m (files ++ [] ∷ [])
append-AreSmall m [] h = (omega arith, tt)
append-AreSmall m (f ∷ fs) h = (h.0, append-AreSmall m fs h.1)

pub set_nil : (files : List (List ℕ)) (id : ℕ) → bytes_at (get_elem? (set files id []) id) ≡ []
set_nil [] id = refl
set_nil (f ∷ fs) zero = refl
set_nil (f ∷ fs) (suc id) = set_nil fs id

pub append_nil_at :
    (files : List (List ℕ)) → bytes_at (get_elem? (files ++ [] ∷ []) (length files)) ≡ []
append_nil_at [] = refl
append_nil_at (f ∷ fs) = append_nil_at fs

-- The place of the next write is not behind the file's end.
abbrev pub IsWithin : Option ℕ → ℕ → Type 0
IsWithin none len = Unit {0}
IsWithin (some at) len = at ≤ len

abbrev pub IsInRange : Option ℕ → ℕ → Type 0
IsInRange none len = Unit {0}
IsInRange (some id) len = id < len

pub record IsFine (m : ℕ) (w : RotatingWriter) (d : Disk) : Type 0 where
  pub max : w.max_size ≡ m
  pub small : AreSmall m d.files
  pub path : IsInRange d.path (length d.files)
  pub exists : w.file < length d.files
  pub within : IsWithin w.cursor (length (bytes_of d w.file))

set-IsInRange :
    (o : Option ℕ) (files : List (List ℕ)) (id : ℕ) (bytes : List ℕ)
    → IsInRange o (length files)
    → IsInRange o (length (set files id bytes))
set-IsInRange none files id bytes h = tt
set-IsInRange (some i) files id bytes h = omega (arith, h, length-set files id bytes)

bytes_of-set :
    (d : Disk) (id : ℕ) (bytes : List ℕ)
    → id < length d.files
    → bytes_of (record d { files = set d.files id bytes }) id ≡ bytes
bytes_of-set d id bytes h = ap bytes_at (get_elem?-set_self d.files id bytes h)

-- The bytes of a file in which `buf` was written at `at`.
abbrev overwritten : List ℕ → ℕ → List ℕ → List ℕ
overwritten old at buf =
    let start = take at old ++ replicate (at - length old) 0 in
    start ++ (buf ++ drop (at + length buf) old)

length-overwritten :
    (old : List ℕ) (at : ℕ) (buf : List ℕ)
    → at ≤ length old
    → length (overwritten old at buf) ≡ (at + length buf) + (length old - (at + length buf))
length-overwritten old at buf h = omega (
  arith,
  h,
  length-append (take at old ++ replicate (at - length old) 0) (buf ++ drop (at + length buf) old),
  length-append (take at old) (replicate (at - length old) 0),
  length-append buf (drop (at + length buf) old),
  length-take at old h,
  length-replicate {A = ℕ} (at - length old) 0,
  length-drop (at + length buf) old,
)

abbrev pub handle : ℕ → Option ℕ → ℕ → RotatingWriter
handle file cursor max = record { file = file; cursor = cursor; max_size = max }

write_bytes-IsFine :
    (m : ℕ) (buf : List ℕ) (file : ℕ) (cursor : Option ℕ) (max : ℕ) (d : Disk)
    → IsFine m (handle file cursor max) d
    → length (bytes_of d file) + length buf ≤ m
    → let x = write_bytes buf (handle file cursor max) d in IsFine m x.0 x.1
unfolding write_bytes
write_bytes-IsFine m buf file none max d h b = record {
  max = h.max;
  small =
      set-AreSmall m d.files file _ (omega (arith, b, length-append (bytes_of d file) buf)) h.small;
  path = set-IsInRange d.path d.files file (bytes_of d file ++ buf) h.path;
  exists = omega (arith, h.exists, length-set d.files file (bytes_of d file ++ buf));
  within = tt;
}
write_bytes-IsFine m buf file (some at) max d h b =
    let l = length-overwritten (bytes_of d file) at buf h.within in
    record {
      max = h.max;
      small = set-AreSmall m d.files file _ (omega (arith, b, l)) h.small;
      path = set-IsInRange d.path d.files file (overwritten (bytes_of d file) at buf) h.path;
      exists =
          omega (arith, h.exists, length-set d.files file (overwritten (bytes_of d file) at buf));
      within =
          rw (bytes_of-set d file (overwritten (bytes_of d file) at buf) h.exists)
            (omega (arith, l));
    }

pub write_file-IsFine :
    (m : ℕ) (taken : Result ℕ) (buf : List ℕ) (w : RotatingWriter) (d : Disk)
    → IsFine m w d
    → length (bytes_of d w.file) + length buf ≤ m
    → let x = write_file taken buf (w, d) in IsFine m x.0.0 x.0.1
unfolding write_file
write_file-IsFine m (err e) buf w d h b = h
write_file-IsFine m (ok n) buf w d h b =
    write_bytes-IsFine m (take n buf) w.file w.cursor w.max_size d h
      (omega (arith, b, length-take_le n buf))
