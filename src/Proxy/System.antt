-- ===== src/Proxy/System.antt =====
-- The pool of src/proxy/pool.rs with all the tasks that share it: one supervisor for each slot, and
-- the clients, as interleaved steps in any order.
pub mod Slots
pub mod Keeps
pub mod Counts
use proxybear.Base.{
  ℕ, suc, ◌+◌, ◌-◌, Bool, true, false, Option, none, some, List, [], ◌∷◌, ◌++◌, length, get_elem?,
  set, replicate, if◌then◌else◌, ◌==◌, Text, Result, ok, err, Error,
}
use proxybear.Stats.{ProxyStats}
use proxybear.Proxy.Pool
use proxybear.Proxy.Pool.{Session, Pool, update, kill, drop_lease, check_sessions}
use proxybear.Proxy.Pool.Channel.{subscribe, unsubscribe, select}
use proxybear.Proxy.Supervise.{Phase, connecting, Event, supervise_step}

-- `leases` lists the session of every `Lease` that some task holds.
pub record System : Type 0 where
  pub phases : List Phase
  pub pool : Pool
  pub leases : List ℕ

pub data Action : Type 0 where
  supervisor : ℕ → Event → Action
  asks gives_up takes : Action
  returns : ℕ → Action
  kills : ℕ → Action
  closes : ℕ → Action
  pings : (ℕ → Bool) → Action

abbrev pub count : ℕ → List ℕ → ℕ
count id [] = 0
count id (x ∷ xs) = if x == id then suc (count id xs) else count id xs

-- The list without the first `id`.
abbrev pub erase : ℕ → List ℕ → List ℕ
erase id [] = []
erase id (x ∷ xs) = if x == id then xs else x ∷ erase id xs

unfoldable pub supervisor_step : ℕ → Event → Option Phase → System → System
supervisor_step index e none s = s
supervisor_step index e (some phase) s =
    let (phase', p') = supervise_step index e phase s.pool in
    record s { phases = set s.phases index phase'; pool = p' }

unfoldable pub leased : Pool × Result ℕ → System → System
leased (p, ok id) s = record s { pool = p; leases = id ∷ s.leases }
leased (p, err e) s = record s { pool = p }

-- russh finds a connection closed.
unfoldable pub close_handle : Pool → ℕ → Pool
close_handle p id = update (λ s. record s { handle_closed = true }) p id

-- Only a lease that is held can be dropped.
unfoldable pub step : Action → System → System
unfolding supervisor_step leased close_handle
step (supervisor index e) s = supervisor_step index e (get_elem? s.phases index) s
step asks s = record s { pool = subscribe s.pool }
step gives_up s = record s { pool = unsubscribe s.pool }
step takes s = leased (select s.pool) s
step (returns id) s =
    if count id s.leases == 0
    then s
    else record s { pool = drop_lease s.pool id; leases = erase id s.leases }
step (kills id) s = record s { pool = kill s.pool id }
step (closes id) s = record s { pool = close_handle s.pool id }
step (pings answers) s = record s { pool = check_sessions answers s.pool }

unfoldable pub run : List Action → System → System
run [] s = s
run (a ∷ actions) s = run actions (step a s)

-- A proxy that starts: `size` empty slots, each with a supervisor that connects.
unfoldable pub start : ℕ → ProxyStats → Text → System
unfolding Pool.new
start size stats status = record {
  phases = replicate size connecting;
  pool = Pool.new size stats status;
  leases = [];
}
