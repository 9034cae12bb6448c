-- ===== src/Proxy/Supervise.antt =====
-- src/proxy/pool.rs: `supervise` and `wait_for_client`, the task that keeps one slot connected.
-- A step is what the task does between two waits; times are in milliseconds.
pub mod Waiting
use proxybear.Base.{
  ℕ, ◌+◌, ◌-◌, Bool, true, false, Option, none, some, List, [], ◌∷◌, ◌++◌, length, get_elem?, leb,
  ◌==◌, if◌then◌else◌, Error,
}
use proxybear.Proxy.Pool.{Session, Pool, update, disconnect, set_slot, report_connect_error}

abbrev pub reconnect_min_interval : ℕ
reconnect_min_interval = 1000

abbrev pub stable_session_uptime : ℕ
stable_session_uptime = 30000

-- What the task waits for: the connector; the end of its session; a client, since a time; and the
-- rest of the shortest interval, since a time.
pub data Phase : Type 0 where
  connecting : Phase
  serving : ℕ → ℕ → Phase
  idle : ℕ → Phase
  pausing : ℕ → Phase

-- What may happen to a waiting task. The times of `closed` and `failed` are those at which the
-- disconnect that follows is done.
pub data Event : Type 0 where
  connected : ℕ → Event
  refused : Error → ℕ → Event
  closed : ℕ → Event
  failed : ℕ → Event
  woken : Event
  timer : ℕ → Event

abbrev pub fresh_session : Session
fresh_session = record { handle_closed = false; active_channels = 0; dead = false; kill = false }

-- The start of `wait_for_client`: a client that already waits counts.
unfoldable pub wait_for_client : ℕ → Pool → Phase × Pool
wait_for_client now p = (if p.receivers == 0 then idle now else pausing now, p)

-- The end of a session: its slot is emptied first.
unfoldable pub lose : ℕ → ℕ → ℕ → ℕ → Pool → Phase × Pool
unfolding wait_for_client
lose index id started now p =
    let q = disconnect (set_slot index none (update (λ s. record s { dead = true }) p id)) id in
    if leb stable_session_uptime (now - started) then (connecting, q) else wait_for_client now q

-- Whether `session.kill.notified()` is ready.
unfoldable pub kill_stored : Option Session → Bool
kill_stored none = false
kill_stored (some s) = s.kill

-- `kill.notified()` uses up the stored wake-up.
unfoldable pub take_kill : Pool → ℕ → Pool
take_kill p id = update (λ s. record s { kill = false }) p id

-- An event that the phase does not wait for changes nothing.
unfoldable pub supervise_step : ℕ → Event → Phase → Pool → Phase × Pool
unfolding lose wait_for_client kill_stored take_kill
supervise_step index (connected now) connecting p =
    let id = length p.sessions in
    (
      serving id now,
      set_slot index (some id) (record p { sessions = p.sessions ++ fresh_session ∷ [] }),
    )
supervise_step index (refused e now) connecting p = wait_for_client now (report_connect_error e p)
supervise_step index (closed now) (serving id started) p = lose index id started now p
supervise_step index (failed now) (serving id started) p =
    if kill_stored (get_elem? p.sessions id)
    then lose index id started now (take_kill p id)
    else (serving id started, p)
supervise_step index woken (idle since) p = (pausing since, p)
supervise_step index (timer now) (pausing since) p =
    (if leb (since + reconnect_min_interval) now then connecting else pausing since, p)
supervise_step index _ phase p = (phase, p)

unfoldable pub supervise : ℕ → List Event → Phase → Pool → Phase × Pool
supervise index [] phase p = (phase, p)
supervise index (e ∷ es) phase p =
    let (phase', p') = supervise_step index e phase p in supervise index es phase' p'
