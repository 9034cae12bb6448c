-- ===== src/Logs/Watch.antt =====
-- src/app/logging.rs tells of a change of the log, and the task that src/main.rs spawns in
-- `sync_refresh_tasks` then reads it again. The steps of the task and of the threads that write the
-- log come in any order; the second that the task sleeps is left out.
pub mod Missed
mod Tests
use proxybear.Base.{
  ℕ, suc, Bool, true, false, not, ◌&&◌, Option, none, some, List, [], ◌∷◌, ◌≡◌, if◌then◌else◌,
}

-- `tokio::sync::watch` for a value that says nothing: a receiver knows whether a value was sent that it
-- has not seen.
pub record Watch : Type 1 where
  pub Sender : Type 0
  pub Receiver : Type 0
  pub send : Sender → Sender
  pub subscribe : Sender → Receiver
  pub has_changed : Sender → Receiver → Bool
  pub mark_seen : Sender → Receiver → Receiver
  -- What the receiver has seen was sent by now.
  pub Knows : Sender → Receiver → Type 0
  pub Knows-subscribe : (s : Sender) → Knows s (subscribe s)
  pub Knows-mark_seen : (s : Sender) (r : Receiver) → Knows s r → Knows s (mark_seen s r)
  pub Knows-send : (s : Sender) (r : Receiver) → Knows s r → Knows (send s) r
  pub has_changed-send : (s : Sender) (r : Receiver) → Knows s r → has_changed (send s) r ≡ true

module _ (w : Watch) where
  open w use {Sender, Receiver, send, subscribe, has_changed, mark_seen}

  -- Where the task stands: it has subscribed and the first reading is due, it waits for a change, it
  -- sleeps, or it has marked what was sent as seen and will read.
  pub data LogTask : Type 0 where
    dropped : LogTask
    subscribed waiting sleeping marked : Receiver → LogTask

  -- `written` counts the messages in the file, `shown` those that were there at the last reading. A
  -- writer holds the lock from writing the file until it has told of it, which is `untold`.
  pub record Log : Type 0 where
    pub sender : Sender
    pub task : LogTask
    pub written : ℕ
    pub shown : ℕ
    pub untold : Bool

  unfoldable pub start : Sender → Log
  start s = record { sender = s; task = dropped; written = 0; shown = 0; untold = false }

  abbrev is_dropped : LogTask → Bool
  is_dropped dropped = true
  is_dropped _ = false

  -- Where there is no receiver, sending fails and changes nothing.
  unfoldable pub tell : Log → Log
  tell l = record l {
    sender = if is_dropped l.task then l.sender else send l.sender;
    untold = false;
  }

  -- `write` up to the `?`: a write that fails returns at once.
  unfoldable pub write_file : Bool → Log → Log
  write_file works l =
      if l.untold
      then l
      else if works
      then record l { written = suc l.written; untold = true }
      else l

  -- `log_tail.refresh()`.
  unfoldable pub read : Log → Log
  read l = record l { shown = l.written }

  -- One step of the task, by where it stands.
  unfoldable pub task_step : LogTask → Log → Log
  unfolding read
  task_step dropped l = l
  task_step (subscribed r) l = record (read l) { task = waiting r }
  task_step (waiting r) l =
      if has_changed l.sender r then record l { task = sleeping (mark_seen l.sender r) } else l
  task_step (sleeping r) l = record l { task = marked (mark_seen l.sender r) }
  task_step (marked r) l = record (read l) { task = waiting r }

  unfoldable pub advance : Log → Log
  advance l = task_step l.task l

  -- The page is opened, or is left.
  unfoldable pub follow : LogTask → Sender → LogTask
  follow dropped s = subscribed (subscribe s)
  follow (subscribed r) s = subscribed r
  follow (waiting r) s = waiting r
  follow (sleeping r) s = sleeping r
  follow (marked r) s = marked r

  pub data Event : Type 0 where
    writes : Bool → Event
    tells advances opens leaves : Event

  unfoldable pub step : Event → Log → Log
  unfolding tell write_file advance follow
  step (writes works) l = write_file works l
  step tells l = if l.untold then tell l else l
  step advances l = advance l
  step opens l = record l { task = follow l.task l.sender }
  step leaves l = record l { task = dropped }

  unfoldable pub run : List Event → Log → Log
  run [] l = l
  run (e ∷ es) l = run es (step e l)
