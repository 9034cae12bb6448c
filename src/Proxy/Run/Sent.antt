-- ===== src/Proxy/Run/Sent.antt =====
-- Which sessions the pool of src/proxy/pool.rs has told to disconnect, after any history.
use proxybear.Base.{
  ℕ, suc, ◌-◌, zero, ◌+◌, ◌≡◌, refl, ap, inl, inr, true, Option, none, some, List, [], ◌∷◌, ◌++◌,
  arith, set, replicate, get_elem?, Bool-cases, Text, Result, ok, err, length, length-append, leb,
  ◌==◌,
}
use proxybear.Stats.{ProxyStats}
use proxybear.Proxy.Pool
use proxybear.Proxy.Pool.{
  Session, Pool, update, kill, drop_lease, new_lease, check_sessions, kill_silent, live_sessions,
  occupied, report_slots, set_slot, report_connect_error, disconnect,
}
use proxybear.Proxy.Pool.Channel.{select}
use proxybear.Proxy.Supervise.{
  Phase, connecting, serving, idle, pausing, Event, connected, refused, closed, failed, woken,
  timer, supervise_step, wait_for_client, lose, take_kill, kill_stored, stable_session_uptime,
  fresh_session,
}
use proxybear.Proxy.System.{
  System, Action, supervisor, asks, gives_up, takes, returns, kills, closes, pings, supervisor_step,
  leased, step, start, count,
}
use proxybear.Proxy.System.Slots.{IsInStep, slot_of, get_elem?-map}
use proxybear.Proxy.Run.Same.{
  once, AreSent, Same, Same-AreSent, update-Same, Same-trans, Same-refl, kill-Same,
  check_sessions-Same, close_handle-Same, subscribe-Same, unsubscribe-Same, select-Same,
  report_connect_error-Same, report_slots-Same,
}

leased-AreSent :
    (x : Pool × Result ℕ) (s : System)
    → Same s.pool x.0
    → AreSent s.pool
    → AreSent (leased x s).pool
unfolding leased
leased-AreSent (p, ok id) s h k = Same-AreSent s.pool p h k
leased-AreSent (p, err e) s h k = Same-AreSent s.pool p h k

pub count-append : (x : ℕ) (xs ys : List ℕ) → count x (xs ++ ys) ≡ count x xs + count x ys
count-append x [] ys = omega arith
count-append x (y ∷ xs) ys = ground (arith, count-append x xs ys)

occupied-cons :
    (x : ℕ) (s : Option ℕ) (slots : List (Option ℕ))
    → count x (occupied (s ∷ slots)) ≡ once x s + count x (occupied slots)
unfolding occupied
occupied-cons x none slots = omega arith
occupied-cons x (some id) slots = ground arith

-- A slot that is written gives one session up and takes another.
occupied-set :
    (slots : List (Option ℕ)) (i : ℕ) (before now : Option ℕ) (x : ℕ)
    → get_elem? slots i ≡ some before
    → count x (occupied (set slots i now)) + once x before ≡ count x (occupied slots) + once x now
unfolding occupied
occupied-set [] i before now x h = cc
occupied-set (s ∷ slots) zero before now x h =
    let e : s ≡ before = cc in
    omega (arith, occupied-cons x now slots, occupied-cons x s slots, ap (once x) e)
occupied-set (s ∷ slots) (suc i) before now x h = omega (
  arith,
  occupied-cons x s (set slots i now),
  occupied-cons x s slots,
  occupied-set slots i before now x h,
)

connected-AreSent :
    (index : ℕ) (p : Pool)
    → get_elem? p.slots index ≡ some none
    → AreSent p
    → AreSent (
        set_slot index
          (some (length p.sessions))
          (record p { sessions = p.sessions ++ fresh_session ∷ [] }))
unfolding set_slot
connected-AreSent index p g h =
    let q : Pool = record p {
      slots = set p.slots index (some (length p.sessions));
      sessions = p.sessions ++ fresh_session ∷ [];
    } in
    Same-AreSent q (report_slots q) (report_slots-Same q) (λ x. ground (
      arith,
      occupied-set p.slots index none (some (length p.sessions)) x g,
      length-append p.sessions (fresh_session ∷ []),
      h x,
    ))

lost-AreSent :
    (index id : ℕ) (p q : Pool)
    → get_elem? p.slots index ≡ some (some id)
    → Same p q
    → AreSent p
    → AreSent (disconnect (set_slot index none q) id)
unfolding disconnect set_slot report_slots
lost-AreSent index id p q g s h x =
    rw (s.slots, s.disconnected, s.sessions)
      (ground (arith, occupied-set p.slots index (some id) none x g, h x))

lose-AreSent :
    (index id started now : ℕ) (p q : Pool)
    → get_elem? p.slots index ≡ some (some id)
    → Same p q
    → AreSent p
    → AreSent (lose index id started now q).1
unfolding lose wait_for_client
lose-AreSent index id started now p q g s h =
    let dead = update (λ b. record b { dead = true }) q id in
    let k = lost-AreSent index id p dead g (Same-trans p q dead s (update-Same _ q id)) h in
    elim (Bool-cases (leb stable_session_uptime (now - started))) [
      | inl e ↦ rw (e, lose) k
      | inr e ↦ rw (e, lose) k
    ]

supervise_step-AreSent :
    (index : ℕ) (e : Event) (phase : Phase) (p : Pool)
    → get_elem? p.slots index ≡ some (slot_of phase)
    → AreSent p
    → AreSent (supervise_step index e phase p).1
unfolding supervise_step
supervise_step-AreSent index (connected now) connecting p g h = connected-AreSent index p g h
supervise_step-AreSent index (refused e now) connecting p g h =
    unfold wait_for_client in Same-AreSent p _ (report_connect_error-Same e p) h
supervise_step-AreSent index (closed now) (serving id started) p g h =
    lose-AreSent index id started now p p g (Same-refl p) h
supervise_step-AreSent index (failed now) (serving id started) p g h =
    elim (Bool-cases (kill_stored (get_elem? p.sessions id))) [
      | inl e ↦
          rw (e, supervise_step)
            (lose-AreSent index id started now p (take_kill p id) g
              (unfold take_kill in update-Same _ p id) h)
      | inr e ↦ rw (e, supervise_step) h
    ]
supervise_step-AreSent index woken (idle since) p g h = h
supervise_step-AreSent index (timer now) (pausing since) p g h = h
supervise_step-AreSent index _ phase p g h = h

supervisor_step-AreSent :
    (index : ℕ) (e : Event) (o : Option Phase) (s : System)
    → get_elem? s.phases index ≡ o
    → IsInStep s
    → AreSent s.pool
    → AreSent (supervisor_step index e o s).pool
unfolding supervisor_step
supervisor_step-AreSent index e none s g k h = h
supervisor_step-AreSent index e (some phase) s g k h =
    supervise_step-AreSent index e phase s.pool (rw k (get_elem?-map s.phases index phase g)) h

returns-Same : (id : ℕ) (s : System) → Same s.pool (step (returns id) s).pool
unfolding step drop_lease
returns-Same id s = elim (Bool-cases (count id s.leases == 0)) [
  | inl e ↦ rw e (Same-refl s.pool)
  | inr e ↦ rw e (update-Same _ s.pool id)
]

pub step-AreSent : (a : Action) (s : System) → IsInStep s → AreSent s.pool → AreSent (step a s).pool
unfolding step
step-AreSent (supervisor index e) s k h = supervisor_step-AreSent index e _ s refl k h
step-AreSent asks s k h = Same-AreSent s.pool _ (subscribe-Same s.pool) h
step-AreSent gives_up s k h = Same-AreSent s.pool _ (unsubscribe-Same s.pool) h
step-AreSent takes s k h = leased-AreSent (select s.pool) s (select-Same s.pool) h
step-AreSent (returns id) s k h = Same-AreSent s.pool _ (returns-Same id s) h
step-AreSent (kills id) s k h = Same-AreSent s.pool _ (kill-Same s.pool id) h
step-AreSent (closes id) s k h = Same-AreSent s.pool _ (close_handle-Same s.pool id) h
step-AreSent (pings answers) s k h = Same-AreSent s.pool _ (check_sessions-Same answers s.pool) h

pub occupied-replicate : (n : ℕ) → occupied (replicate n none) ≡ []
unfolding occupied
occupied-replicate zero = refl
occupied-replicate (suc n) = occupied-replicate n

pub start-AreSent :
    (size : ℕ) (stats : ProxyStats) (status : Text) → AreSent (start size stats status).pool
unfolding start Pool.new
start-AreSent size stats status x = rw (occupied-replicate size) (ground arith)
