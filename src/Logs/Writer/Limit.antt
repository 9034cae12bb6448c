-- ===== src/Logs/Writer/Limit.antt =====
-- The disk that the log of src/app/logging.rs takes, over a run of the application.
use proxybear.Base.{
  ◌+◌, ◌*◌, ◌≤◌, ◌≡◌, refl, some, arith, length-append, length-set, Option, none, List, ℕ, [], ◌∷◌,
  length,
}
use proxybear.Logs.Writer.{Disk, RotatingWriter, bytes_of, Answers, write, clear_file, new}
use proxybear.Logs.Writer.Small.{
  IsInRange, IsFine, AreSmall, handle, set-AreSmall, append-AreSmall, bytes_of-AreSmall,
}
use proxybear.Logs.Writer.Rotation.{write-IsFine, made-IsFresh, disk}

-- A run of the application, as far as the log goes.
pub data Step : Type 0 where
  writes : Answers → List ℕ → Step
  clears_log : Step

unfoldable pub step : Step → RotatingWriter × Disk → RotatingWriter × Disk
step (writes a buf) (w, d) = (write a buf w d).0
step clears_log (w, d) = (w, clear_file d)

unfoldable pub steps : List Step → RotatingWriter × Disk → RotatingWriter × Disk
unfolding step
steps [] s = s
steps (x ∷ xs) s = steps xs (step x s)

-- Every message fits into the log, and the log is cleared under a handle that appends.
abbrev pub IsLegal : RotatingWriter × Disk → Step → Type 0
IsLegal (w, d) (writes a buf) = length buf ≤ w.max_size
IsLegal (w, d) clears_log = w.cursor ≡ none

abbrev pub AreLegal : RotatingWriter × Disk → List Step → Type 0
AreLegal s [] = Unit {0}
AreLegal s (x ∷ xs) = IsLegal s x × AreLegal (step x s) xs

-- The bytes that stand under a name.
abbrev pub named : Option ℕ → Disk → List ℕ
named none d = []
named (some id) d = bytes_of d id

cleared-IsFine :
    (m : ℕ) (w : RotatingWriter) (files : List (List ℕ)) (path old : Option ℕ)
    → w.cursor ≡ none
    → IsFine m w (disk files path old)
    → IsFine m w (clear_file (disk files path old))
unfolding clear_file
cleared-IsFine m w files none old c h = record {
  max = h.max;
  small = append-AreSmall m files h.small;
  path = omega (arith, length-append files ([] ∷ []));
  exists = omega (arith, h.exists, length-append files ([] ∷ []));
  within = rw c tt;
}
cleared-IsFine m w files (some id) old c h = record {
  max = h.max;
  small = set-AreSmall m files id [] (omega arith) h.small;
  path = omega (arith, h.path, length-set files id []);
  exists = omega (arith, h.exists, length-set files id []);
  within = rw c tt;
}

new-IsFine :
    (m : ℕ) (files : List (List ℕ)) (path old : Option ℕ)
    → AreSmall m files
    → IsInRange path (length files)
    → let x = new m (disk files path old) in IsFine m x.0 x.1
unfolding new
new-IsFine m files none old s r = (made-IsFresh m (handle 0 none m) files old none refl s tt).0
new-IsFine m files (some id) old s r = record {
  max = refl;
  small = s;
  path = r;
  exists = r;
  within = tt;
}

step-IsFine :
    (m : ℕ) (x : Step) (w : RotatingWriter) (d : Disk)
    → IsLegal (w, d) x
    → IsFine m w d
    → IsFine m (step x (w, d)).0 (step x (w, d)).1
unfolding step
step-IsFine m (writes a buf) w d l h = write-IsFine m a buf w d (rw⁻¹ h.max l) h
step-IsFine m clears_log w d l h = cleared-IsFine m w d.files d.path d.old l h

steps-IsFine :
    (m : ℕ) (xs : List Step) (w : RotatingWriter) (d : Disk)
    → AreLegal (w, d) xs
    → IsFine m w d
    → IsFine m (steps xs (w, d)).0 (steps xs (w, d)).1
unfolding steps
steps-IsFine m [] w d l h = h
steps-IsFine m (x ∷ xs) w d l h =
    let s = step x (w, d) in steps-IsFine m xs s.0 s.1 l.1 (step-IsFine m x w d l.0 h)

named-AreSmall : (m : ℕ) (o : Option ℕ) (d : Disk) → AreSmall m d.files → length (named o d) ≤ m
named-AreSmall m none d h = omega arith
named-AreSmall m (some id) d h = bytes_of-AreSmall m d.files id h

-- If the files are small when the application starts, every message fits into the log, and "Clear Log"
-- is used only while the handle appends, then the log and the old log together never take more than
-- twice the maximal size, whichever of the system's steps fail.
pub steps-AreSmall :
    (m : ℕ) (xs : List Step) (d : Disk)
    → AreSmall m d.files
    → IsInRange d.path (length d.files)
    → AreLegal (new m d) xs
    → let d' = (steps xs (new m d)).1 in
      length (named d'.path d') + length (named d'.old d') ≤ 2 * m
steps-AreSmall m xs d s r l =
    let d' = (steps xs (new m d)).1 in
    let h = steps-IsFine m xs (new m d).0 (new m d).1 l (new-IsFine m d.files d.path d.old s r) in
    omega (arith, named-AreSmall m d'.path d' h.small, named-AreSmall m d'.old d' h.small)
