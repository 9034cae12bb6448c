-- ===== src/Proxy/Run.antt =====
-- src/proxy/mod.rs: `run_proxy`, from the bound listener to the last status. Its tasks are those of
-- `System`; what they do between two wake-ups of the accept loop are steps of it.
pub mod Same
pub mod Sent
pub mod Stops
mod Tests
use proxybear.Base.{
  ℕ, zero, suc, ◌+◌, ◌-◌, Option, none, some, List, [], ◌∷◌, ◌++◌, Text, codes, Result, ok, err,
  Error, context,
}
use proxybear.Stats.{ProxyStats, set_status}
use proxybear.Proxy.Pool.{Pool, drop_lease, close, connecting_status}
use proxybear.Proxy.System.{System, Action, step, start}

-- What the accept loop waits for, and, in `works`, a step of the tasks while it waits. A supervisor is
-- aborted between its steps.
pub data Happening : Type 0 where
  works : Action → Happening
  accepts : Happening
  accept_fails : Text → Happening
  client_ends : Happening
  shut_down : Happening
  supervisor_fails : Error → Happening

-- `clients` counts the tasks in the set of that name.
pub record Serving : Type 0 where
  pub system : System
  pub clients : ℕ

-- One turn of the loop, and the value that it breaks with.
unfoldable pub loop_step : Happening → Serving → Serving × Option (Result (Unit {0}))
loop_step (works a) s = (record s { system = step a s.system }, none)
loop_step accepts s = (record s { clients = s.clients + 1 }, none)
loop_step (accept_fails e) s = (s, none)
loop_step client_ends s = (record s { clients = s.clients - 1 }, none)
loop_step shut_down s = (s, some (ok tt))
loop_step (supervisor_fails e) s =
    (s, some (context (codes "SSH session supervisor failed") (err e)))

unfoldable pub accept_loop : List Happening → Serving → Serving × Option (Result (Unit {0}))
unfolding loop_step
accept_loop [] s = (s, none)
accept_loop (h ∷ hs) s =
    let (s', r) = loop_step h s in elim r [ some x ↦ (s', some x) | none ↦ accept_loop hs s' ]

-- A task that is aborted drops its leases.
unfoldable pub drop_leases : List ℕ → Pool → Pool
drop_leases [] p = p
drop_leases (id ∷ ids) p = drop_leases ids (drop_lease p id)

-- `abort_all` on both sets, and waiting for their tasks.
unfoldable pub abort_tasks : System → System
unfolding drop_leases
abort_tasks s = record {
  phases = [];
  pool = record (drop_leases s.leases s.pool) { receivers = 0 };
  leases = [];
}

unfoldable pub stop : System → System
unfolding abort_tasks
stop s =
    let t = abort_tasks s in
    let p = close t.pool in
    record t { pool = record p { stats = set_status (codes "Stopped") p.stats } }

-- The address cannot be bound; the loop still waits; or it broke with a result.
pub data Run : Type 0 where
  not_bound : Error → ProxyStats → Run
  running : Serving → Run
  stopped : System → Result (Unit {0}) → Run

abbrev pub after_loop : Serving × Option (Result (Unit {0})) → Run
after_loop (s, none) = running s
after_loop (s, some r) = stopped (stop s.system) r

-- The pool and its supervisors.
unfoldable pub launch : Text → ℕ → ProxyStats → Serving
launch local_addr size stats = record {
  system = start size (set_status connecting_status stats) (codes "Listening on " ++ local_addr);
  clients = 0;
}

unfoldable pub run_proxy : Result (Unit {0}) → Text → ℕ → ProxyStats → List Happening → Run
unfolding accept_loop stop launch
run_proxy (err e) local_addr size stats hs =
    not_bound ((codes "failed to bind " ++ local_addr) ∷ e) stats
run_proxy (ok u) local_addr size stats hs =
    after_loop (accept_loop hs (launch local_addr size stats))
