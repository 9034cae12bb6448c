-- ===== src/Proxy/Pool/Sessions.antt =====
-- What each change of one session in src/proxy/pool.rs does to the load and the life of them all.
use proxybear.Base.{
  ℕ, ◌+◌, ◌%◌, ◌^◌, ◌<◌, ◌≡◌, refl, ◌∙◌, ◌≢◌, inl, inr, Bool, true, false, Option, none, some, List,
  [], ◌∷◌, arith, get_elem?, length, zero, suc, get_elem?-set_self, get_elem?-set_ne, Bool-cases,
  Option-cases,
}
use native.Mathlib.Decide.{ℕ_discrete}
use proxybear.Proxy.Pool.{
  Session, live_at, Pool, is_live, load, update, kill, killed, new_lease, drop_lease, kill_silent,
  check_sessions, live_sessions,
}

pub get_elem?-lt {ℓ} :
    {A : Type ℓ} (xs : List A) (i : ℕ) (x : A) → get_elem? xs i ≡ some x → i < length xs
get_elem?-lt [] i x h = cc
get_elem?-lt (y ∷ ys) zero x h = omega arith
get_elem?-lt (y ∷ ys) (suc i) x h = omega (arith, get_elem?-lt ys i x h)

-- The session at a place after a change of one.
pub update_self :
    (f : Session → Session) (p : Pool) (id : ℕ) (s : Session)
    → get_elem? p.sessions id ≡ some s
    → get_elem? (update f p id).sessions id ≡ some (f s)
unfolding update
update_self f p id s e =
    rw e (get_elem?-set_self p.sessions id (f s) (get_elem?-lt p.sessions id s e))

update-missing :
    (f : Session → Session) (p : Pool) (id : ℕ) → get_elem? p.sessions id ≡ none → update f p id ≡ p
unfolding update
update-missing f p id e = rw e

update-other :
    (f : Session → Session) (p : Pool) (id j : ℕ)
    → id ≢ j
    → get_elem? (update f p id).sessions j ≡ get_elem? p.sessions j
unfolding update
update-other f p id j ne = elim (Option-cases (get_elem? p.sessions id)) [
  | inl e ↦ rw e
  | inr (s, e) ↦ rw e (get_elem?-set_ne p.sessions id j (f s) ne)
]

-- One induction over the three cases: another session, a missing one, the one that is changed.
pub update_cases {ℓ} :
    (P : Option Session → Option Session → Type ℓ) (f : Session → Session) (p : Pool) (id j : ℕ)
    → ((o : Option Session) → P o o)
    → ((s : Session) → id ≡ j → P (some s) (some (f s)))
    → P (get_elem? p.sessions j) (get_elem? (update f p id).sessions j)
update_cases P f p id j same changed = elim (ℕ_discrete id j) [
  | no ne ↦ rw (update-other f p id j ne) (same _)
  | yes eq ↦ elim (Option-cases (get_elem? p.sessions id)) [
    | inl e ↦ rw (update-missing f p id e) (same _)
    | inr (s, e) ↦ rw (← eq) (rw (update_self f p id s e) (rw e (changed s eq)))
  ]
]

abbrev pub load_of : Option Session → ℕ
load_of none = 0
load_of (some s) = s.active_channels

pub load-kill : (p : Pool) (id j : ℕ) → load (kill p id) j ≡ load p j
unfolding load kill killed
load-kill p id j =
    update_cases (λ a b. load_of b ≡ load_of a) killed p id j (λ o. refl) (λ s e. ground arith)

pub load-kill_silent :
    (answers : ℕ → Bool) (ids : List ℕ) (p : Pool) (j : ℕ)
    → load (kill_silent answers ids p) j ≡ load p j
unfolding kill_silent
load-kill_silent answers [] p j = refl
load-kill_silent answers (id ∷ ids) p j = elim (Bool-cases (answers id)) [
  | inl e ↦ rw e (load-kill_silent answers ids p j)
  | inr e ↦ rw e (load-kill_silent answers ids (kill p id) j ∙ load-kill p id j)
]

pub load-check_sessions :
    (answers : ℕ → Bool) (p : Pool) (j : ℕ) → load (check_sessions answers p) j ≡ load p j
unfolding check_sessions
load-check_sessions answers p j = load-kill_silent answers (live_sessions p) p j

-- A live session exists.
pub is_live-exists :
    (p : Pool) (id : ℕ) → is_live p id ≡ true → (s : Session) × (get_elem? p.sessions id ≡ some s)
unfolding is_live
is_live-exists p id h = ground arith

pub load-new_lease_self :
    (p : Pool) (id : ℕ) → is_live p id ≡ true → load (new_lease p id) id ≡ (load p id + 1) % 2 ^ 64
unfolding load new_lease
load-new_lease_self p id h =
    let (s, e) = is_live-exists p id h in rw (update_self _ p id s e) (rw e)

pub load-new_lease_ne : (p : Pool) (id j : ℕ) → id ≢ j → load (new_lease p id) j ≡ load p j
unfolding load new_lease
load-new_lease_ne p id j ne = rw (update-other _ p id j ne)

pub load-drop_lease_ne : (p : Pool) (id j : ℕ) → id ≢ j → load (drop_lease p id) j ≡ load p j
unfolding load drop_lease
load-drop_lease_ne p id j ne = rw (update-other _ p id j ne)

-- Dropping the only lease of a session that never was is no matter: its load reads 0 before and
-- after.
pub load-drop_lease_self :
    (p : Pool) (id : ℕ) (n : ℕ) → load p id ≡ suc n → suc n < 2 ^ 64 → load (drop_lease p id) id ≡ n
unfolding load drop_lease
load-drop_lease_self p id n h small = elim (Option-cases (get_elem? p.sessions id)) [
  | inl e ↦ absurd (ground arith)
  | inr (s, e) ↦ rw (update_self _ p id s e) (ground arith)
]

-- After `kill` the session is handed out no more.
pub is_live-kill : (p : Pool) (id : ℕ) → is_live (kill p id) id ≡ false
unfolding is_live kill killed
is_live-kill p id = elim (Option-cases (get_elem? p.sessions id)) [
  | inl e ↦ rw e (rw e)
  | inr (s, e) ↦ rw (update_self killed p id s e) (ground arith)
]

-- Leases bear on no session's life, and `kill` on no other's.
pub is_live-new_lease : (p : Pool) (id j : ℕ) → is_live (new_lease p id) j ≡ is_live p j
unfolding is_live new_lease
is_live-new_lease p id j =
    update_cases (λ a b. live_at b ≡ live_at a) _ p id j (λ o. refl) (λ s e. refl)

pub is_live-drop_lease : (p : Pool) (id j : ℕ) → is_live (drop_lease p id) j ≡ is_live p j
unfolding is_live drop_lease
is_live-drop_lease p id j =
    update_cases (λ a b. live_at b ≡ live_at a) _ p id j (λ o. refl) (λ s e. refl)

pub is_live-kill_ne : (p : Pool) (id j : ℕ) → id ≢ j → is_live (kill p id) j ≡ is_live p j
unfolding is_live kill
is_live-kill_ne p id j ne = rw (update-other _ p id j ne)
