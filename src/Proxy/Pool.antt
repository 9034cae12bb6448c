-- ===== src/Proxy/Pool.antt =====
-- src/proxy/pool.rs: the SSH sessions that all SOCKS connections share.
-- A session is known by its place in `sessions`, which stands for the `Arc` that slots, leases and
-- tasks hold; it is never removed from there. What russh, the clock and the other tasks do is an
-- argument of each operation.
pub mod Channel
pub mod Select
pub mod Sessions
pub mod Leases
pub mod Retry
pub mod Status
use proxybear.Base.{
  ℕ, suc, ◌+◌, ◌-◌, ◌%◌, ◌^◌, Bool, true, false, not, ◌&&◌, ◌||◌, Option, none, some, List, [], ◌∷◌,
  ◌++◌, Text, codes, length, get_elem?, set, replicate, filter, any, ltb, if◌then◌else◌, Error,
  chain_text,
}
use proxybear.Base.Decimal.{to_decimal}
use proxybear.Stats.{
  ProxyStats, set_status, set_error, clear_error, ssh_connected, ssh_disconnected,
}

-- `handle_closed` is russh's `Handle::is_closed`; `kill` says whether a wake-up is stored.
pub record Session : Type 0 where
  pub handle_closed : Bool
  pub active_channels : ℕ
  pub dead : Bool
  pub kill : Bool

unfoldable pub is_live_session : Session → Bool
is_live_session s = not s.dead && not s.handle_closed

-- `wakes` counts the calls of `notify_waiters`, `receivers` the clients inside `acquire`, and
-- `disconnected` lists the sessions that were told to disconnect.
pub record Pool : Type 0 where
  pub slots : List (Option ℕ)
  pub sessions : List Session
  pub stats : ProxyStats
  pub listening_status : Text
  pub wakes : ℕ
  pub receivers : ℕ
  pub disconnected : List ℕ

-- `Pool::new`.
unfoldable pub new : ℕ → ProxyStats → Text → Pool
new size stats listening_status = record {
  slots = replicate size none;
  sessions = [];
  stats = stats;
  listening_status = listening_status;
  wakes = 0;
  receivers = 0;
  disconnected = [];
}

abbrev pub live_at : Option Session → Bool
live_at none = false
live_at (some s) = is_live_session s

unfoldable pub is_live : Pool → ℕ → Bool
unfolding is_live_session
is_live p id = live_at (get_elem? p.sessions id)

abbrev load_at : Option Session → ℕ
load_at none = 0
load_at (some s) = s.active_channels

-- `session.active_channels.load(…)`.
unfoldable pub load : Pool → ℕ → ℕ
load p id = load_at (get_elem? p.sessions id)

-- A change of one session.
abbrev pub update_at : Option Session → (Session → Session) → ℕ → List Session → List Session
update_at none f id sessions = sessions
update_at (some s) f id sessions = set sessions id (f s)

unfoldable pub update : (Session → Session) → Pool → ℕ → Pool
update f p id = record p { sessions = update_at (get_elem? p.sessions id) f id p.sessions }

-- `Session::kill` on the session: the first call stores a wake-up for its supervisor.
unfoldable pub killed : Session → Session
killed s = if s.dead then s else record s { dead = true; kill = true }

unfoldable pub kill : Pool → ℕ → Pool
unfolding update killed
kill p id = update killed p id

-- `Lease::new` and the drop of a lease: atomic additions on a `usize`.
unfoldable pub new_lease : Pool → ℕ → Pool
unfolding update
new_lease p id = update (λ s. record s { active_channels = (s.active_channels + 1) % 2 ^ 64 }) p id

unfoldable pub drop_lease : Pool → ℕ → Pool
unfolding update
drop_lease p id =
    update (λ s. record s { active_channels = (s.active_channels + 2 ^ 64 - 1) % 2 ^ 64 }) p id

-- `session.disconnect()`: its failure is only logged.
unfoldable pub disconnect : Pool → ℕ → Pool
disconnect p id = record p { disconnected = id ∷ p.disconnected }

-- `slots.iter().flatten()`.
unfoldable pub occupied : List (Option ℕ) → List ℕ
occupied [] = []
occupied (none ∷ slots) = occupied slots
occupied (some id ∷ slots) = id ∷ occupied slots

unfoldable pub live_sessions : Pool → List ℕ
unfolding occupied is_live
live_sessions p = filter (is_live p) (occupied p.slots)

unfoldable pub connecting_status : Text
connecting_status = codes "Connecting to SSH server..."

unfoldable pub sessions_status : Pool → ℕ → Text
sessions_status p live =
    p.listening_status
    ++ (codes " · "
        ++ (to_decimal live
            ++ (codes "/" ++ (to_decimal (length p.slots) ++ codes " SSH sessions"))))

-- What `set_slot` reports once the slot is written.
unfoldable pub report_slots : Pool → Pool
unfolding live_sessions
report_slots p =
    let live = length (live_sessions p) in
    record p {
      stats =
          if ltb 0 live
          then set_status (sessions_status p live) (clear_error (ssh_connected p.stats))
          else set_status connecting_status (ssh_disconnected p.stats);
    }

-- Every caller's index is below the number of slots; the source panics on any other.
unfoldable pub set_slot : ℕ → Option ℕ → Pool → Pool
unfolding report_slots
set_slot index session p = report_slots (record p { slots = set p.slots index session })

-- Disconnect every session that a slot holds.
unfoldable pub close : Pool → Pool
unfolding occupied
close p = record p {
  slots = replicate (length p.slots) none;
  disconnected = occupied p.slots ++ p.disconnected;
  stats = ssh_disconnected p.stats;
}

-- Show a connect error unless another session still serves clients.
unfoldable pub report_connect_error : Error → Pool → Pool
unfolding occupied is_live
report_connect_error error p =
    if any (is_live p) (occupied p.slots)
    then p
    else record p { stats = set_error (chain_text error) p.stats }

-- The pings of `check_sessions` to the listed sessions: the silent ones are killed.
unfoldable pub kill_silent : (ℕ → Bool) → List ℕ → Pool → Pool
kill_silent answers [] p = p
kill_silent answers (id ∷ ids) p = kill_silent answers ids (if answers id then p else kill p id)

unfoldable pub check_sessions : (ℕ → Bool) → Pool → Pool
unfolding kill_silent live_sessions
check_sessions answers p = kill_silent answers (live_sessions p) p
