-- ===== src/Proxy/Pool/Status.antt =====
-- What src/proxy/pool.rs tells the user: the status of `set_slot`, `report_connect_error` and `close`.
use proxybear.Base.{
  ℕ, zero, suc, ◌≡◌, refl, sym, ◌≢◌, Bool, true, false, Option, none, some, List, [], ◌∷◌, ◌++◌,
  arith, Error, any, filter, length, length-replicate, replicate, chain_text, set,
}
use proxybear.Stats.Laws.{
  set_status_lem, set_error_lem, clear_error_lem, ssh_connected_lem, ssh_disconnected_lem,
}
use proxybear.Stats.{clear_error, ssh_connected, ssh_disconnected}
use proxybear.Proxy.Pool.{
  Pool, is_live, occupied, live_sessions, sessions_status, connecting_status, report_slots,
  set_slot, close, report_connect_error,
}

-- What the shared figures say of a pool with these live sessions, just after it was reported.
abbrev pub Reported : Pool → List ℕ → Pool → Type 0
Reported before [] after =
    (after.stats.ssh_connected ≡ false)
    × (after.stats.status ≡ connecting_status)
    × (after.stats.last_error ≡ before.stats.last_error)
Reported before (id ∷ ids) after =
    (after.stats.ssh_connected ≡ true)
    × (after.stats.status ≡ sessions_status after (length (id ∷ ids)))
    × (after.stats.last_error ≡ none)

report_slots-Reported :
    (p : Pool) (ids : List ℕ) → live_sessions p ≡ ids → Reported p ids (report_slots p)
unfolding report_slots sessions_status
report_slots-Reported p [] e =
    let idle = ssh_disconnected_lem p.stats in
    ground (arith, e, idle, set_status_lem connecting_status (ssh_disconnected p.stats))
report_slots-Reported p (id ∷ ids) e =
    let on = ssh_connected_lem p.stats in
    let clean = clear_error_lem (ssh_connected p.stats) in
    let text = sessions_status p (length (id ∷ ids)) in
    ground (arith, e, on, clean, set_status_lem text (clear_error (ssh_connected p.stats)))

live_sessions-report_slots : (p : Pool) → live_sessions (report_slots p) ≡ live_sessions p
unfolding report_slots live_sessions is_live
live_sessions-report_slots p = refl

-- Whenever a slot changes, the user is told how many sessions are live then, and an old error goes
-- away if there is one.
pub set_slot-Reported :
    (index : ℕ) (session : Option ℕ) (p : Pool)
    → Reported p (live_sessions (set_slot index session p)) (set_slot index session p)
unfolding set_slot
set_slot-Reported index session p =
    report_slots-Reported (record p { slots = set p.slots index session }) _
      (sym (live_sessions-report_slots (record p { slots = set p.slots index session })))

any→filter : (test : ℕ → Bool) (ids : List ℕ) → any test ids ≡ true → filter test ids ≢ []
any→filter test [] h e = cc
any→filter test (x ∷ ids) h e = ground (arith, any→filter test ids)

not_any→filter : (test : ℕ → Bool) (ids : List ℕ) → any test ids ≡ false → filter test ids ≡ []
not_any→filter test [] h = refl
not_any→filter test (x ∷ ids) h = ground (arith, not_any→filter test ids)

-- A connect error is shown exactly while no session serves clients.
report_connect_error-last_error :
    (e : Error) (p : Pool)
    → (live_sessions p ≡ [] → (report_connect_error e p).stats.last_error ≡ some (chain_text e))
      × (live_sessions p ≢ [] → report_connect_error e p ≡ p)
unfolding report_connect_error live_sessions
report_connect_error-last_error e p = ground (
  arith,
  any→filter (is_live p) (occupied p.slots),
  not_any→filter (is_live p) (occupied p.slots),
  set_error_lem (chain_text e) p.stats,
)

occupied-replicate : (n : ℕ) → occupied (replicate n none) ≡ []
unfolding occupied
occupied-replicate zero = refl
occupied-replicate (suc n) = occupied-replicate n

-- Closing empties every slot, tells each session in a slot to disconnect, and reports no connection.
pub close_lem :
    (p : Pool)
    → let q = close p in
      (live_sessions q ≡ [])
      × (length q.slots ≡ length p.slots)
      × (q.disconnected ≡ occupied p.slots ++ p.disconnected)
      × (q.stats.ssh_connected ≡ false)
unfolding close live_sessions
close_lem p = (
  rw (occupied-replicate (length p.slots)),
  length-replicate (length p.slots) none,
  refl,
  (ssh_disconnected_lem p.stats).0,
)
