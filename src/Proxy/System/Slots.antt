-- ===== src/Proxy/System/Slots.antt =====
-- Which slots of the pool in src/proxy/pool.rs hold a session, after any history.
use proxybear.Base.{
  ℕ, suc, zero, ◌≡◌, refl, sym, ◌∙◌, ap, inl, inr, Bool, Option, none, some, List, [], ◌∷◌, arith,
  Error, map, set, replicate, get_elem?, Bool-cases, Text, Result, ok, err,
}
use proxybear.Stats.{ProxyStats}
use proxybear.Proxy.Pool
use proxybear.Proxy.Pool.{
  Pool, update, kill, drop_lease, new_lease, check_sessions, kill_silent, live_sessions,
  report_slots, set_slot, report_connect_error, disconnect,
}
use proxybear.Proxy.Pool.Select.{select_cases}
use proxybear.Proxy.Pool.Channel.{subscribe, unsubscribe, select}
use proxybear.Proxy.Supervise.{
  Phase, connecting, serving, idle, pausing, Event, connected, refused, closed, failed, woken,
  timer, supervise_step, wait_for_client, lose, take_kill,
}
use proxybear.Proxy.System.{
  System, Action, supervisor, asks, gives_up, takes, returns, kills, closes, pings, supervisor_step,
  leased, close_handle, step, run, start,
}

-- The session that a supervisor's slot holds.
abbrev pub slot_of : Phase → Option ℕ
slot_of connecting = none
slot_of (serving id started) = some id
slot_of (idle since) = none
slot_of (pausing since) = none

pub slots-update : (f : _ → _) (p : Pool) (id : ℕ) → (update f p id).slots ≡ p.slots
unfolding update
slots-update f p id = refl

pub slots-kill_silent :
    (answers : ℕ → Bool) (ids : List ℕ) (p : Pool) → (kill_silent answers ids p).slots ≡ p.slots
unfolding kill_silent kill
slots-kill_silent answers [] p = refl
slots-kill_silent answers (id ∷ ids) p = elim (Bool-cases (answers id)) [
  | inl e ↦ rw (e, kill_silent) (slots-kill_silent answers ids p)
  | inr e ↦ rw (e, kill_silent) (slots-kill_silent answers ids (kill p id))
]

pub slots-check_sessions :
    (answers : ℕ → Bool) (p : Pool) → (check_sessions answers p).slots ≡ p.slots
unfolding check_sessions
slots-check_sessions answers p = slots-kill_silent answers (live_sessions p) p

pub slots-report_connect_error : (e : Error) (p : Pool) → (report_connect_error e p).slots ≡ p.slots
unfolding report_connect_error
slots-report_connect_error e p = ground arith

pub slots-subscribe : (p : Pool) → (subscribe p).slots ≡ p.slots
unfolding subscribe
slots-subscribe p = ground arith

-- Writing what stands there already.
pub set_same {ℓ} :
    {A : Type ℓ} (xs : List A) (i : ℕ) (x : A) → get_elem? xs i ≡ some x → set xs i x ≡ xs
set_same [] i x h = refl
set_same (y ∷ ys) zero x h = ground arith
set_same (y ∷ ys) (suc i) x h = ap (◌∷◌ y) (set_same ys i x h)

map-set :
    (phases : List Phase) (i : ℕ) (phase : Phase)
    → map slot_of (set phases i phase) ≡ set (map slot_of phases) i (slot_of phase)
map-set [] i phase = refl
map-set (x ∷ xs) zero phase = refl
map-set (x ∷ xs) (suc i) phase = ap (◌∷◌ (slot_of x)) (map-set xs i phase)

pub get_elem?-map :
    (phases : List Phase) (i : ℕ) (phase : Phase)
    → get_elem? phases i ≡ some phase
    → get_elem? (map slot_of phases) i ≡ some (slot_of phase)
get_elem?-map [] i phase h = cc
get_elem?-map (x ∷ xs) zero phase h = ground arith
get_elem?-map (x ∷ xs) (suc i) phase h = get_elem?-map xs i phase h

-- A supervisor writes its own slot alone, and leaves there what its new phase says.
abbrev Writes : ℕ → Pool → Phase × Pool → Type 0
Writes index p r = r.1.slots ≡ set p.slots index (slot_of r.0)

lose-Writes :
    (index id started now : ℕ) (p q : Pool)
    → q.slots ≡ p.slots
    → Writes index p (lose index id started now q)
unfolding lose wait_for_client set_slot report_slots update disconnect
lose-Writes index id started now p q h = ground arith

pub supervise_step-Writes :
    (index : ℕ) (e : Event) (phase : Phase) (p : Pool)
    → set p.slots index (slot_of phase) ≡ p.slots
    → Writes index p (supervise_step index e phase p)
unfolding supervise_step
supervise_step-Writes index (connected now) connecting p h = unfold set_slot report_slots in refl
supervise_step-Writes index (refused e now) connecting p h =
    unfold wait_for_client in ground (arith, slots-report_connect_error e p)
supervise_step-Writes index (closed now) (serving id started) p h =
    lose-Writes index id started now p p refl
supervise_step-Writes index (failed now) (serving id started) p h =
    ground
      (arith, lose-Writes index id started now p (take_kill p id) (unfold take_kill update in refl))
supervise_step-Writes index woken (idle since) p h = sym h
supervise_step-Writes index (timer now) (pausing since) p h = ground arith
supervise_step-Writes index _ phase p h = sym h

-- Every slot holds the session that its supervisor serves, and no other slot holds one.
abbrev pub IsInStep : System → Type 0
IsInStep s = s.pool.slots ≡ map slot_of s.phases

leased-IsInStep :
    (s : System) (x : Pool × Result ℕ)
    → x.0.slots ≡ s.pool.slots
    → IsInStep s
    → IsInStep (leased x s)
unfolding leased
leased-IsInStep s (p, ok id) h k = h ∙ k
leased-IsInStep s (p, err e) h k = h ∙ k

pub slots-select : (p : Pool) → (select p).0.slots ≡ p.slots
unfolding new_lease unsubscribe update
slots-select p = select_cases (λ x. x.0.slots ≡ p.slots) p (λ message. refl) (λ id best. refl)

supervisor_step-IsInStep :
    (index : ℕ) (e : Event) (o : Option Phase) (s : System)
    → get_elem? s.phases index ≡ o
    → IsInStep s
    → IsInStep (supervisor_step index e o s)
unfolding supervisor_step
supervisor_step-IsInStep index e none s h k = k
supervisor_step-IsInStep index e (some phase) s h k =
    let there : get_elem? s.pool.slots index ≡ some (slot_of phase) =
      rw k (get_elem?-map s.phases index phase h) in
    let r = supervise_step index e phase s.pool in
    supervise_step-Writes index e phase s.pool (set_same s.pool.slots index (slot_of phase) there)
    ∙ (ap (λ slots. set slots index (slot_of r.0)) k ∙ sym (map-set s.phases index r.0))

pub step-IsInStep : (a : Action) (s : System) → IsInStep s → IsInStep (step a s)
unfolding step
step-IsInStep (supervisor index e) s k = supervisor_step-IsInStep index e _ s refl k
step-IsInStep asks s k = slots-subscribe s.pool ∙ k
step-IsInStep gives_up s k = unfold unsubscribe in k
step-IsInStep takes s k = leased-IsInStep s (select s.pool) (slots-select s.pool) k
step-IsInStep (returns id) s k = unfold drop_lease update in ground arith
step-IsInStep (kills id) s k = unfold kill update in k
step-IsInStep (closes id) s k = unfold close_handle update in k
step-IsInStep (pings answers) s k = slots-check_sessions answers s.pool ∙ k

run-IsInStep : (actions : List Action) (s : System) → IsInStep s → IsInStep (run actions s)
unfolding run
run-IsInStep [] s k = k
run-IsInStep (a ∷ actions) s k = run-IsInStep actions (step a s) (step-IsInStep a s k)

map-replicate : (n : ℕ) → replicate n none ≡ map slot_of (replicate n connecting)
map-replicate zero = refl
map-replicate (suc n) = ap (◌∷◌ none) (map-replicate n)

pub start-IsInStep :
    (size : ℕ) (stats : ProxyStats) (status : Text) → IsInStep (start size stats status)
unfolding start Pool.new
start-IsInStep size stats status = map-replicate size

-- After any interleaving of the supervisors and the clients, every slot holds exactly the session that
-- its supervisor serves.
pub run-start-IsInStep :
    (size : ℕ) (stats : ProxyStats) (status : Text) (actions : List Action)
    → IsInStep (run actions (start size stats status))
run-start-IsInStep size stats status actions =
    run-IsInStep actions (start size stats status) (start-IsInStep size stats status)
