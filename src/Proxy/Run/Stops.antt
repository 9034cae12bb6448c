-- ===== src/Proxy/Run/Stops.antt =====
-- What `run_proxy` of src/proxy/mod.rs leaves behind.
use proxybear.Base.{
  ℕ, ◌≡◌, refl, ◌∙◌, ap, subst, inl, inr, false, some, List, [], ◌∷◌, ◌++◌, arith, Bool-cases, Text,
  codes, text_eq, text_eq→eq, Result, ok, length, ◌==◌,
}
use proxybear.Stats.{ProxyStats, set_status, ssh_disconnected}
use proxybear.Proxy.Pool.{Pool, load, drop_lease, occupied, close}
use proxybear.Proxy.System.{System, returns, step, count, erase}
use proxybear.Proxy.System.Slots.{IsInStep, step-IsInStep, start-IsInStep}
use proxybear.Proxy.System.Counts.{IsCounted, step-IsCounted, start-IsCounted}
use proxybear.Proxy.Run.{
  Happening, works, accepts, accept_fails, client_ends, shut_down, supervisor_fails, Serving,
  loop_step, accept_loop, drop_leases, abort_tasks, stop, stopped, after_loop, launch, run_proxy,
}
use proxybear.Proxy.Run.Same.{AreSent, made, Same, Same-AreSent, Same-trans, Same-refl, update-Same}
use proxybear.Proxy.Run.Sent.{step-AreSent, count-append, start-AreSent, occupied-replicate}

-- While the loop runs.
record IsFine (s : System) : Type 0 where
  pub counted : IsCounted s
  pub slots : IsInStep s
  pub sent : AreSent s.pool

-- After it: every session that was ever made was told to disconnect once, no slot holds one, no load is
-- left, and the user is told.
pub record IsStopped (s : System) : Type 0 where
  pub sent : (id : ℕ) → count id s.pool.disconnected ≡ made id (length s.pool.sessions)
  pub empty : occupied s.pool.slots ≡ []
  pub loads : (id : ℕ) → load s.pool id ≡ 0
  pub status : s.pool.stats.status ≡ codes "Stopped"
  pub connected : s.pool.stats.ssh_connected ≡ false

loop_step-IsFine : (h : Happening) (s : Serving) → IsFine s.system → IsFine (loop_step h s).0.system
unfolding loop_step
loop_step-IsFine (works a) s h = record {
  counted = step-IsCounted a s.system h.counted;
  slots = step-IsInStep a s.system h.slots;
  sent = step-AreSent a s.system h.slots h.sent;
}
loop_step-IsFine accepts s h = h
loop_step-IsFine (accept_fails e) s h = h
loop_step-IsFine client_ends s h = h
loop_step-IsFine shut_down s h = h
loop_step-IsFine (supervisor_fails e) s h = h

-- The loop breaks at the shutdown at the latest.
accept_loop-shut_down :
    (before after : List Happening) (s : Serving)
    → IsFine s.system
    → (s' : Serving) × (r : Result (Unit {0})) × (accept_loop (before ++ shut_down ∷ after) s
        ≡ (s', some r))
      × IsFine s'.system
unfolding accept_loop loop_step
accept_loop-shut_down [] after s h = (s, ok tt, refl, h)
accept_loop-shut_down (works a ∷ before) after s h =
    accept_loop-shut_down before after _ (loop_step-IsFine (works a) s h)
accept_loop-shut_down (accepts ∷ before) after s h = accept_loop-shut_down before after _ h
accept_loop-shut_down (accept_fails e ∷ before) after s h = accept_loop-shut_down before after s h
accept_loop-shut_down (client_ends ∷ before) after s h = accept_loop-shut_down before after _ h
accept_loop-shut_down (shut_down ∷ before) after s h = (s, ok tt, refl, h)
accept_loop-shut_down (supervisor_fails e ∷ before) after s h = (s, _, refl, h)

-- The first lease is dropped.
returns-cons :
    (s : System) (x : ℕ) (ids : List ℕ)
    → s.leases ≡ x ∷ ids
    → step (returns x) s ≡ record s { pool = drop_lease s.pool x; leases = ids }
unfolding step
returns-cons s x ids e =
    let n : (count x (x ∷ ids) == 0) ≡ false = ground arith in
    let f : erase x (x ∷ ids) ≡ ids = ground arith in rw (e, n, f, step) refl

drop_leases-loads :
    (s : System) (ids : List ℕ)
    → s.leases ≡ ids
    → IsCounted s
    → (id : ℕ) → load (drop_leases ids s.pool) id ≡ 0
unfolding drop_leases
drop_leases-loads s [] e h id = h.counted id ∙ rw e (omega arith)
drop_leases-loads s (x ∷ ids) e h id =
    let dropped : System = record s { pool = drop_lease s.pool x; leases = ids } in
    drop_leases-loads dropped ids refl
      (subst IsCounted (returns-cons s x ids e) (step-IsCounted (returns x) s h)) id

drop_leases-Same : (ids : List ℕ) (p : Pool) → Same p (drop_leases ids p)
unfolding drop_leases
drop_leases-Same [] p = Same-refl p
drop_leases-Same (id ∷ ids) p =
    Same-trans p (drop_lease p id) _ (unfold drop_lease in update-Same _ p id)
      (drop_leases-Same ids (drop_lease p id))

status-set_status : (text : Text) (s : ProxyStats) → (set_status text s).status ≡ text
unfolding set_status
status-set_status text s = elim (Bool-cases (text_eq s.status text)) [
  | inl e ↦ rw (e, set_status) (text_eq→eq s.status text e)
  | inr e ↦ rw (e, set_status) refl
]

connected-ssh_disconnected :
    (text : Text) (s : ProxyStats) → (set_status text (ssh_disconnected s)).ssh_connected ≡ false
unfolding set_status ssh_disconnected
connected-ssh_disconnected text s = ground arith

stop-IsStopped : (s : System) → IsFine s → IsStopped (stop s)
unfolding stop abort_tasks close load
stop-IsStopped s h =
    let p = drop_leases s.leases s.pool in
    let sent = Same-AreSent s.pool p (drop_leases-Same s.leases s.pool) h.sent in
    record {
      sent = λ id. count-append id (occupied p.slots) p.disconnected ∙ sent id;
      empty = occupied-replicate (length p.slots);
      loads = λ id. drop_leases-loads s s.leases refl h.counted id;
      status = status-set_status (codes "Stopped") (ssh_disconnected p.stats);
      connected = connected-ssh_disconnected (codes "Stopped") p.stats;
    }

launch-IsFine :
    (local_addr : Text) (size : ℕ) (stats : ProxyStats)
    → IsFine (launch local_addr size stats).system
unfolding launch
launch-IsFine local_addr size stats = record {
  counted = start-IsCounted size _ _;
  slots = start-IsInStep size _ _;
  sent = start-AreSent size _ _;
}

-- If the address can be bound, then the proxy that is shut down stops, whatever its tasks have done, in
-- whatever order: every session that was ever made has been told to disconnect once, no slot holds one,
-- no load is left, and the status says so.
pub run_proxy-stops :
    (local_addr : Text) (size : ℕ) (stats : ProxyStats) (before after : List Happening)
    → (s : System) × (r : Result (Unit {0})) × (run_proxy
          (ok tt)
          local_addr
          size
          stats
          (before ++ shut_down ∷ after)
        ≡ stopped s r)
      × IsStopped s
unfolding run_proxy
run_proxy-stops local_addr size stats before after =
    let (s, r, e, h) =
      accept_loop-shut_down before after (launch local_addr size stats)
        (launch-IsFine local_addr size stats) in
    (stop s.system, r, ap after_loop e, stop-IsStopped s.system h)
