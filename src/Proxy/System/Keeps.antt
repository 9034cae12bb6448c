-- ===== src/Proxy/System/Keeps.antt =====
-- The steps of src/proxy/pool.rs that leave the load of every session as it is.
use proxybear.Base.{
  ℕ, suc, zero, ◌≤◌, ◌≡◌, refl, ◌∙◌, ap, inl, inr, Bool, true, false, List, [], ◌∷◌, ◌++◌, arith,
  Error, length, length-set, length-append, get_elem?, Bool-cases, Option-cases, if◌then◌else◌,
}
use proxybear.Proxy.Pool.{
  live_sessions, check_sessions, Session, Pool, load, update, kill, killed, kill_silent,
  report_slots, set_slot, report_connect_error, disconnect,
}
use proxybear.Proxy.Pool.Sessions.{update_cases, load_of}
use proxybear.Proxy.Supervise.{
  woken, idle, Phase, connecting, serving, pausing, Event, connected, refused, closed, failed,
  timer, supervise_step, wait_for_client, lose, take_kill, fresh_session,
}
use proxybear.Proxy.Pool.Channel.{subscribe, unsubscribe}
use proxybear.Proxy.System.{close_handle}

-- The loads are the same, and no session is forgotten.
pub record Keeps (p q : Pool) : Type 0 where
  pub loads : (j : ℕ) → load q j ≡ load p j
  pub sessions : length p.sessions ≤ length q.sessions

Keeps-trans : (p q r : Pool) → Keeps p q → Keeps q r → Keeps p r
Keeps-trans p q r h k = record { loads = λ j. k.loads j ∙ h.loads j; sessions = omega arith }

pub length-update :
    (f : Session → Session) (p : Pool) (id : ℕ)
    → length (update f p id).sessions ≡ length p.sessions
unfolding update
length-update f p id = elim (Option-cases (get_elem? p.sessions id)) [
  | inl e ↦ rw e
  | inr (s, e) ↦ rw e (length-set p.sessions id (f s))
]

-- A change that leaves `active_channels` alone.
update-Keeps :
    (f : Session → Session) (p : Pool) (id : ℕ)
    → ((s : Session) → (f s).active_channels ≡ s.active_channels)
    → Keeps p (update f p id)
unfolding load
update-Keeps f p id h = record {
  loads = λ j. update_cases (λ a b. load_of b ≡ load_of a) f p id j (λ o. refl) (λ s e. h s);
  sessions = omega (arith, length-update f p id);
}

pub kill-Keeps : (p : Pool) (id : ℕ) → Keeps p (kill p id)
unfolding kill killed
kill-Keeps p id = update-Keeps killed p id λ s. ground arith

kill_silent-Keeps :
    (answers : ℕ → Bool) (ids : List ℕ) (p : Pool) → Keeps p (kill_silent answers ids p)
unfolding kill_silent
kill_silent-Keeps answers [] p = record { loads = λ j. refl; sessions = omega arith }
kill_silent-Keeps answers (id ∷ ids) p = elim (Bool-cases (answers id)) [
  | inl e ↦ rw (e, kill_silent) (kill_silent-Keeps answers ids p)
  | inr e ↦
      rw (e, kill_silent)
        (Keeps-trans p (kill p id) _ (kill-Keeps p id) (kill_silent-Keeps answers ids (kill p id)))
]

get_elem?-append :
    (xs : List Session) (x : Session) (j : ℕ)
    → x.active_channels ≡ 0
    → load_of (get_elem? (xs ++ x ∷ []) j) ≡ load_of (get_elem? xs j)
get_elem?-append [] x zero h = h
get_elem?-append [] x (suc j) h = refl
get_elem?-append (y ∷ ys) x zero h = refl
get_elem?-append (y ∷ ys) x (suc j) h = get_elem?-append ys x j h

-- Only the sessions matter.
Keeps-of : (p q q' : Pool) → q'.sessions ≡ q.sessions → Keeps p q → Keeps p q'
unfolding load
Keeps-of p q q' e h = record {
  loads = λ j. ap (λ ss. load_of (get_elem? ss j)) e ∙ h.loads j;
  sessions = rw e h.sessions;
}

Keeps-refl : (p : Pool) → Keeps p p
Keeps-refl p = record { loads = λ j. refl; sessions = omega arith }

lose-Keeps : (index id started now : ℕ) (p : Pool) → Keeps p (lose index id started now p).1
unfolding lose wait_for_client disconnect set_slot report_slots
lose-Keeps index id started now p =
    let f : Session → Session = λ s. record s { dead = true } in
    Keeps-of p (update f p id) _ (ground arith) (update-Keeps f p id (λ s. refl))

take_kill-Keeps : (p : Pool) (id : ℕ) → Keeps p (take_kill p id)
unfolding take_kill
take_kill-Keeps p id = update-Keeps (λ s. record s { kill = false }) p id (λ s. refl)

failed-Keeps :
    (index id started now : ℕ) (p : Pool) (b : Bool)
    → Keeps p (if b then lose index id started now (take_kill p id) else (serving id started, p)).1
failed-Keeps index id started now p true =
    Keeps-trans p (take_kill p id) _ (take_kill-Keeps p id)
      (lose-Keeps index id started now (take_kill p id))
failed-Keeps index id started now p false = Keeps-refl p

sessions-report_connect_error :
    (e : Error) (p : Pool) → (report_connect_error e p).sessions ≡ p.sessions
unfolding report_connect_error
sessions-report_connect_error e p = ground arith

connected-Keeps :
    (index now : ℕ) (p : Pool) → Keeps p (supervise_step index (connected now) connecting p).1
unfolding supervise_step set_slot report_slots load
connected-Keeps index now p = record {
  loads = λ j. get_elem?-append p.sessions fresh_session j refl;
  sessions = omega (arith, length-append p.sessions (fresh_session ∷ []));
}

pub supervise_step-Keeps :
    (index : ℕ) (e : Event) (phase : Phase) (p : Pool) → Keeps p (supervise_step index e phase p).1
unfolding supervise_step
supervise_step-Keeps index (connected now) connecting p = connected-Keeps index now p
supervise_step-Keeps index (refused e now) connecting p =
    unfold wait_for_client in Keeps-of p p _ (sessions-report_connect_error e p) (Keeps-refl p)
supervise_step-Keeps index (closed now) (serving id started) p = lose-Keeps index id started now p
supervise_step-Keeps index (failed now) (serving id started) p =
    failed-Keeps index id started now p _
supervise_step-Keeps index woken (idle since) p = Keeps-refl p
supervise_step-Keeps index (timer now) (pausing since) p = Keeps-refl p
supervise_step-Keeps index _ phase p = Keeps-refl p

pub subscribe-Keeps : (p : Pool) → Keeps p (subscribe p)
unfolding subscribe
subscribe-Keeps p = Keeps-of p p _ (ground arith) (Keeps-refl p)

pub unsubscribe-Keeps : (p : Pool) → Keeps p (unsubscribe p)
unfolding unsubscribe
unsubscribe-Keeps p = Keeps-of p p _ refl (Keeps-refl p)

pub close_handle-Keeps : (p : Pool) (id : ℕ) → Keeps p (close_handle p id)
unfolding close_handle
close_handle-Keeps p id = update-Keeps (λ s. record s { handle_closed = true }) p id (λ s. refl)

pub check_sessions-Keeps : (answers : ℕ → Bool) (p : Pool) → Keeps p (check_sessions answers p)
unfolding check_sessions
check_sessions-Keeps answers p = kill_silent-Keeps answers (live_sessions p) p
