-- ===== src/Logs/Watch/Missed.antt =====
-- The window misses no change of the log, in whatever order the threads of src/app/logging.rs and the
-- task of src/main.rs take their steps.
use proxybear.Base.{ℕ, ◌≡◌, ◌⊎◌, Bool, true}
use proxybear.Logs.Watch.{Watch, LogTask, dropped, subscribed, waiting, sleeping, marked, Log}

module _ (w : Watch) where
  open w use {
    Sender, Receiver, has_changed, Knows, Knows-subscribe, Knows-mark_seen, Knows-send,
    has_changed-send,
  }

  -- A task that waits has read everything, or will be woken, or a writer is about to wake it.
  abbrev pub Misses : Sender → Bool → ℕ → ℕ → LogTask w → Type 0
  Misses s untold shown written dropped = Unit {0}
  Misses s untold shown written (subscribed r) = Knows s r
  Misses s untold shown written (waiting r) =
      Knows s r × ((shown ≡ written) ⊎ ((has_changed s r ≡ true) ⊎ (untold ≡ true)))
  Misses s untold shown written (sleeping r) = Knows s r
  Misses s untold shown written (marked r) = Knows s r

  abbrev pub IsFollowed : Log w → Type 0
  IsFollowed l = Misses l.sender l.untold l.shown l.written l.task

  abbrev state : Sender → LogTask w → ℕ → ℕ → Bool → Log w
  state s t m n u = record { sender = s; task = t; written = m; shown = n; untold = u }
