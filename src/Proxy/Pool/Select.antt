-- ===== src/Proxy/Pool/Select.antt =====
-- Which session `acquire` of src/proxy/pool.rs gives to a client.
use proxybear.Base.{
  Result, Option-cases, bail, Text, sym, subst, ℕ, ◌+◌, ◌≤◌, ◌≡◌, refl, inl, inr, Bool, true, false,
  some, List, [], ◌∷◌, arith, filter, any, In, All, ltb, Bool-cases, ok,
}
use proxybear.Proxy.Pool.{new_lease, Pool, is_live, load, occupied, live_sessions}
use proxybear.Proxy.Pool.Channel.{
  unsubscribe, least_loaded_from, least_loaded, slot_wants, subscribe, select, acquire, ready,
}

All-le_trans :
    (p : Pool) (a b : ℕ) (ids : List ℕ)
    → load p a ≤ load p b
    → All (λ other. load p b ≤ load p other) ids
    → All (λ other. load p a ≤ load p other) ids
All-le_trans p a b [] h k = tt
All-le_trans p a b (id ∷ ids) h k = (omega arith, All-le_trans p a b ids h k.1)

least_loaded_from-In :
    (p : Pool) (best : ℕ) (ids : List ℕ) → In (least_loaded_from p best ids) (best ∷ ids)
unfolding least_loaded_from
least_loaded_from-In p best [] = inl refl
least_loaded_from-In p best (id ∷ ids) = elim (Bool-cases (ltb (load p id) (load p best))) [
  | inl e ↦
      let same : least_loaded_from p best (id ∷ ids) ≡ least_loaded_from p id ids = rw e in
      subst (λ r. In r (best ∷ id ∷ ids)) (sym same) (inr (least_loaded_from-In p id ids))
  | inr e ↦
      let same : least_loaded_from p best (id ∷ ids) ≡ least_loaded_from p best ids = rw e in
      subst (λ r. In r (best ∷ id ∷ ids)) (sym same)
        (elim (least_loaded_from-In p best ids) [ inl h ↦ inl h | inr h ↦ inr (inr h) ])
]

abbrev IsLeast : Pool → List ℕ → ℕ → Type 0
IsLeast p ids r = All (λ other. load p r ≤ load p other) ids

least_loaded_from-le :
    (p : Pool) (best : ℕ) (ids : List ℕ) → IsLeast p (best ∷ ids) (least_loaded_from p best ids)
unfolding least_loaded_from
least_loaded_from-le p best [] = (omega arith, tt)
least_loaded_from-le p best (id ∷ ids) = elim (Bool-cases (ltb (load p id) (load p best))) [
  | inl e ↦
      let same : least_loaded_from p best (id ∷ ids) ≡ least_loaded_from p id ids = rw e in
      let h = least_loaded_from-le p id ids in
      subst (IsLeast p (best ∷ id ∷ ids)) (sym same) (ground (arith, e, h.0), h)
  | inr e ↦
      let same : least_loaded_from p best (id ∷ ids) ≡ least_loaded_from p best ids = rw e in
      let h = least_loaded_from-le p best ids in
      subst (IsLeast p (best ∷ id ∷ ids)) (sym same) (h.0, (ground (arith, e, h.0), h.1))
]

In-filter :
    (test : ℕ → Bool) (id : ℕ) (ids : List ℕ)
    → In id (filter test ids)
    → (test id ≡ true) × In id ids
In-filter test id [] h = elim h [ ]
In-filter test id (x ∷ ids) h = elim (Bool-cases (test x)) [
  | inl e ↦ elim (rw e at h) [
    | inl same ↦ (rw same e, inl same)
    | inr rest ↦ ((In-filter test id ids rest).0, inr (In-filter test id ids rest).1)
  ]
  | inr e ↦ let rest = In-filter test id ids (rw e at h) in (rest.0, inr rest.1)
]

least_loaded-IsLeast :
    (p : Pool) (ids : List ℕ) (id : ℕ) → least_loaded p ids ≡ some id → In id ids × IsLeast p ids id
unfolding least_loaded
least_loaded-IsLeast p [] id h = cc
least_loaded-IsLeast p (x ∷ ids) id h =
    let e : least_loaded_from p x ids ≡ id = ground arith in
    subst (λ r. In r (x ∷ ids) × IsLeast p (x ∷ ids) r) e
      (least_loaded_from-In p x ids, least_loaded_from-le p x ids)

-- What a client may rely on when it gets a session out of the pool.
pub record IsBest (p : Pool) (id : ℕ) : Type 0 where
  pub live : is_live p id ≡ true
  pub slotted : In id (occupied p.slots)
  pub least : All (λ other. load p id ≤ load p other) (live_sessions p)

In-live_sessions :
    (p : Pool) (id : ℕ) → In id (live_sessions p) → (is_live p id ≡ true) × In id (occupied p.slots)
unfolding live_sessions
In-live_sessions p id h = In-filter (is_live p) id (occupied p.slots) h

-- `select` either gives up or takes a lease on the best session.
pub select_cases {ℓ} :
    (P : Pool × Result ℕ → Type ℓ) (p : Pool)
    → ((message : Text) → P (unsubscribe p, bail message))
    → ((id : ℕ) → IsBest p id → P (unsubscribe (new_lease p id), ok id))
    → P (select p)
unfolding select
select_cases P p gives_up takes = elim (Option-cases (least_loaded p (live_sessions p))) [
  | inl e ↦ rw (e, select) (gives_up _)
  | inr (id, e) ↦
      let chosen = least_loaded-IsLeast p (live_sessions p) id e in
      let found = In-live_sessions p id chosen.0 in
      rw (e, select) (takes id (record { live = found.0; slotted = found.1; least = chosen.1 }))
]

select-IsBest : (p : Pool) (id : ℕ) → (select p).1 ≡ ok id → IsBest p id
select-IsBest p id =
    select_cases (λ r. r.1 ≡ ok id → IsBest p id) p (λ message h. cc)
      λ found best h. subst (IsBest p) (ground arith) best

-- Whatever the other tasks do while a client waits, the session that it gets is live at that moment,
-- stands in a slot, and has no more open channels than any other live session.
pub acquire-IsBest :
    (meanwhile : Pool → Pool) (p : Pool) (id : ℕ)
    → (acquire (ready meanwhile) p).1 ≡ ok id
    → IsBest (meanwhile (subscribe p)) id
unfolding acquire
acquire-IsBest meanwhile p id h = select-IsBest (meanwhile (subscribe p)) id h

-- A client that asks wakes the supervisors exactly if a slot has no live session.
pub subscribe-wakes :
    (p : Pool)
    → (any (slot_wants p) p.slots ≡ true → (subscribe p).wakes ≡ p.wakes + 1)
      × (any (slot_wants p) p.slots ≡ false → (subscribe p).wakes ≡ p.wakes)
unfolding subscribe slot_wants is_live
subscribe-wakes p = ground arith
