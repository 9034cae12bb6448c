-- ===== src/Proxy/System/Counts.antt =====
-- The load of a session in src/proxy/pool.rs is the number of leases that tasks hold on it, after any
-- history.
use proxybear.Base.{
  Text, Option, none, ok, ℕ, suc, zero, ◌-◌, ◌%◌, ◌^◌, ◌≤◌, ◌<◌, ◌≡◌, refl, sym, ◌∙◌, ap, ◌≢◌, inl,
  inr, true, some, List, [], ◌∷◌, All, arith, length, get_elem?, Bool-cases, ◌==◌,
}
use native.Mathlib.Decide.{ℕ_discrete}
use proxybear.Proxy.Pool
use proxybear.Proxy.Pool.{
  live_sessions, check_sessions, Session, Pool, load, update, kill, killed, drop_lease, kill_silent,
  report_slots, set_slot, report_connect_error, disconnect,
}
use proxybear.Proxy.Pool.Sessions.{update_self, load-drop_lease_ne}
use proxybear.Proxy.Supervise.{Phase, Event}
use proxybear.Proxy.Pool.Channel.{unsubscribe, select}
use proxybear.Proxy.Pool.Select.{select_cases, IsBest}
use proxybear.Proxy.Pool.Sessions.{
  is_live-exists, get_elem?-lt, load-new_lease_self, load-new_lease_ne,
}
use proxybear.Proxy.Pool.{new_lease, is_live}
use proxybear.Proxy.System.Keeps.{
  Keeps, kill-Keeps, supervise_step-Keeps, subscribe-Keeps, unsubscribe-Keeps, close_handle-Keeps,
  check_sessions-Keeps, length-update,
}
use proxybear.Proxy.System.{
  ProxyStats, supervisor, asks, gives_up, takes, kills, closes, pings, Action, run, start, leased,
  supervisor_step, System, returns, step, count, erase,
}

-- Every lease is on a session that exists, and every load is the number of leases.
pub record IsCounted (s : System) : Type 0 where
  pub known : All (λ id. id < length s.pool.sessions) s.leases
  pub counted : (id : ℕ) → load s.pool id ≡ count id s.leases % 2 ^ 64

All-lt_trans : (m n : ℕ) (ids : List ℕ) → m ≤ n → All (λ id. id < m) ids → All (λ id. id < n) ids
All-lt_trans m n [] h k = tt
All-lt_trans m n (id ∷ ids) h k = (omega arith, All-lt_trans m n ids h k.1)

Keeps-IsCounted :
    (s s' : System) → s'.leases ≡ s.leases → Keeps s.pool s'.pool → IsCounted s → IsCounted s'
Keeps-IsCounted s s' e k h = record {
  known = rw e (All-lt_trans _ _ s.leases k.sessions h.known);
  counted = λ id. rw e (k.loads id ∙ h.counted id);
}

erase-known : (n id : ℕ) (ids : List ℕ) → All (λ x. x < n) ids → All (λ x. x < n) (erase id ids)
erase-known n id [] h = tt
erase-known n id (x ∷ ids) h = ground (arith, erase-known n id ids h.1)

count-erase_self : (id : ℕ) (ids : List ℕ) → count id (erase id ids) ≡ count id ids - 1
count-erase_self id [] = omega arith
count-erase_self id (x ∷ ids) = ground (arith, count-erase_self id ids)

count-erase_ne : (id j : ℕ) (ids : List ℕ) → id ≢ j → count j (erase id ids) ≡ count j ids
count-erase_ne id j [] ne = refl
count-erase_ne id j (x ∷ ids) ne = ground (arith, count-erase_ne id j ids ne)

known_of_count : (n id : ℕ) (ids : List ℕ) → All (λ x. x < n) ids → 0 < count id ids → id < n
known_of_count n id [] h k = absurd (omega arith)
known_of_count n id (x ∷ ids) h k = ground (arith, known_of_count n id ids h.1)

get_elem?-some {ℓ} :
    {A : Type ℓ} (xs : List A) (i : ℕ) → i < length xs → (x : A) × (get_elem? xs i ≡ some x)
get_elem?-some [] i h = absurd (omega arith)
get_elem?-some (x ∷ xs) zero h = (x, refl)
get_elem?-some (x ∷ xs) (suc i) h = get_elem?-some xs i (omega arith)

load-drop_lease_mod :
    (p : Pool) (id n : ℕ)
    → id < length p.sessions
    → load p id ≡ n % 2 ^ 64
    → 0 < n
    → load (drop_lease p id) id ≡ (n - 1) % 2 ^ 64
unfolding load drop_lease
load-drop_lease_mod p id n h k pos =
    let (s, e) = get_elem?-some p.sessions id h in
    let active : s.active_channels ≡ n % 2 ^ 64 = rw e at k in
    rw (update_self _ p id s e) (omega arith)

pub length-drop_lease : (p : Pool) (id : ℕ) → length (drop_lease p id).sessions ≡ length p.sessions
unfolding drop_lease
length-drop_lease p id = length-update _ p id

pub returns-IsCounted : (id : ℕ) (s : System) → IsCounted s → IsCounted (step (returns id) s)
unfolding step
returns-IsCounted id s h = elim (Bool-cases (count id s.leases == 0)) [
  | inl e ↦ rw e h
  | inr e ↦ rw e (record {
    known =
        rw (length-drop_lease s.pool id) (erase-known (length s.pool.sessions) id s.leases h.known);
    counted = λ j. elim (ℕ_discrete id j) [
      | no ne ↦
          load-drop_lease_ne s.pool id j ne
          ∙ h.counted j
          ∙ ap (λ n. n % 2 ^ 64) (sym (count-erase_ne id j s.leases ne))
      | yes eq ↦ rw (← eq) (
          rw (count-erase_self id s.leases) (
            load-drop_lease_mod s.pool id (count id s.leases)
              (known_of_count _ id s.leases h.known (ground arith)) (h.counted id) (ground arith)))
    ];
  })
]

load-unsubscribe : (p : Pool) (j : ℕ) → load (unsubscribe p) j ≡ load p j
unfolding load unsubscribe
load-unsubscribe p j = refl

pub length-new_lease : (p : Pool) (id : ℕ) → length (new_lease p id).sessions ≡ length p.sessions
unfolding new_lease
length-new_lease p id = length-update _ p id

is_live-lt : (p : Pool) (id : ℕ) → is_live p id ≡ true → id < length p.sessions
is_live-lt p id h = let (s, e) = is_live-exists p id h in get_elem?-lt p.sessions id s e

new_lease-counted :
    (p : Pool) (ids : List ℕ) (id j : ℕ)
    → is_live p id ≡ true
    → ((k : ℕ) → load p k ≡ count k ids % 2 ^ 64)
    → load (new_lease p id) j ≡ count j (id ∷ ids) % 2 ^ 64
new_lease-counted p ids id j live h = elim (ℕ_discrete id j) [
  | no ne ↦ ground (arith, load-new_lease_ne p id j ne, h j)
  | yes eq ↦ rw (← eq) (ground (arith, load-new_lease_self p id live, h id))
]

taken-IsCounted :
    (s : System) (id : ℕ)
    → IsBest s.pool id
    → IsCounted s
    → IsCounted (leased (unsubscribe (new_lease s.pool id), ok id) s)
unfolding leased unsubscribe
taken-IsCounted s id best h =
    let same = length-new_lease s.pool id in
    record {
      known = (
        omega (arith, is_live-lt s.pool id best.live, same),
        All-lt_trans (length s.pool.sessions) _ s.leases (omega (arith, same)) h.known,
      );
      counted = λ j.
          load-unsubscribe (new_lease s.pool id) j
          ∙ new_lease-counted s.pool s.leases id j best.live h.counted;
    }

takes-IsCounted : (s : System) → IsCounted s → IsCounted (leased (select s.pool) s)
takes-IsCounted s h =
    select_cases (λ x. IsCounted (leased x s)) s.pool
      (λ message. unfold leased in Keeps-IsCounted s _ refl (unsubscribe-Keeps s.pool) h)
      (λ id best. taken-IsCounted s id best h)

supervisor-IsCounted :
    (index : ℕ) (e : Event) (o : Option Phase) (s : System)
    → IsCounted s
    → IsCounted (supervisor_step index e o s)
unfolding supervisor_step
supervisor-IsCounted index e none s h = h
supervisor-IsCounted index e (some phase) s h =
    Keeps-IsCounted s _ refl (supervise_step-Keeps index e phase s.pool) h

pub step-IsCounted : (a : Action) (s : System) → IsCounted s → IsCounted (step a s)
unfolding step
step-IsCounted (supervisor index e) s h = supervisor-IsCounted index e _ s h
step-IsCounted asks s h = Keeps-IsCounted s _ refl (subscribe-Keeps s.pool) h
step-IsCounted gives_up s h = Keeps-IsCounted s _ refl (unsubscribe-Keeps s.pool) h
step-IsCounted takes s h = takes-IsCounted s h
step-IsCounted (returns id) s h = returns-IsCounted id s h
step-IsCounted (kills id) s h = Keeps-IsCounted s _ refl (kill-Keeps s.pool id) h
step-IsCounted (closes id) s h = Keeps-IsCounted s _ refl (close_handle-Keeps s.pool id) h
step-IsCounted (pings answers) s h =
    Keeps-IsCounted s _ refl (check_sessions-Keeps answers s.pool) h

run-IsCounted : (actions : List Action) (s : System) → IsCounted s → IsCounted (run actions s)
unfolding run
run-IsCounted [] s h = h
run-IsCounted (a ∷ actions) s h = run-IsCounted actions (step a s) (step-IsCounted a s h)

pub start-IsCounted :
    (size : ℕ) (stats : ProxyStats) (status : Text) → IsCounted (start size stats status)
unfolding start Pool.new load
start-IsCounted size stats status = record { known = tt; counted = λ id. omega arith }

-- After any interleaving of the supervisors and the clients, the load by which `acquire` chooses is
-- the number of leases that are held on the session, as a `usize` counts it.
pub run-start-counted :
    (size : ℕ) (stats : ProxyStats) (status : Text) (actions : List Action) (id : ℕ)
    → let s = run actions (start size stats status) in load s.pool id ≡ count id s.leases % 2 ^ 64
run-start-counted size stats status actions id =
    (run-IsCounted actions (start size stats status) (start-IsCounted size stats status)).counted id
