-- ===== src/Proxy/Run/Same.antt =====
-- The steps of src/proxy/pool.rs that neither write a slot nor make or disconnect a session.
use proxybear.Base.{
  ℕ, ◌+◌, ◌≡◌, refl, ◌∙◌, inl, inr, Bool, Option, none, some, List, [], ◌∷◌, arith, Error,
  Bool-cases, length, ltb, ◌==◌, if◌then◌else◌,
}
use proxybear.Proxy.Pool.{
  Session, Pool, update, kill, new_lease, check_sessions, kill_silent, live_sessions, occupied,
  report_slots, report_connect_error,
}
use proxybear.Proxy.Pool.Select.{select_cases}
use proxybear.Proxy.Pool.Channel.{subscribe, unsubscribe, select}
use proxybear.Proxy.System.{close_handle, count}
use proxybear.Proxy.System.Keeps.{length-update}

-- How often an optional session, and a session of the store, count.
abbrev pub once : ℕ → Option ℕ → ℕ
once x none = 0
once x (some id) = if id == x then 1 else 0

abbrev pub made : ℕ → ℕ → ℕ
made x n = if ltb x n then 1 else 0

-- Every session that was made stands in one slot, or it was told to disconnect once.
abbrev pub AreSent : Pool → Type 0
AreSent p =
    (x : ℕ) → count x (occupied p.slots) + count x p.disconnected ≡ made x (length p.sessions)

-- A step that neither writes a slot, nor makes a session, nor disconnects one.
pub record Same (p q : Pool) : Type 0 where
  pub slots : q.slots ≡ p.slots
  pub disconnected : q.disconnected ≡ p.disconnected
  pub sessions : length q.sessions ≡ length p.sessions

pub Same-AreSent : (p q : Pool) → Same p q → AreSent p → AreSent q
Same-AreSent p q s h x = rw (s.slots, s.disconnected, s.sessions) (h x)

pub update-Same : (f : Session → Session) (p : Pool) (id : ℕ) → Same p (update f p id)
update-Same f p id = record {
  slots = unfold update in refl;
  disconnected = unfold update in refl;
  sessions = length-update f p id;
}

pub Same-trans : (p q r : Pool) → Same p q → Same q r → Same p r
Same-trans p q r h k = record {
  slots = k.slots ∙ h.slots;
  disconnected = k.disconnected ∙ h.disconnected;
  sessions = k.sessions ∙ h.sessions;
}

pub Same-refl : (p : Pool) → Same p p
Same-refl p = record { slots = refl; disconnected = refl; sessions = refl }

pub kill-Same : (p : Pool) (id : ℕ) → Same p (kill p id)
unfolding kill
kill-Same p id = update-Same _ p id

pub kill_silent-Same :
    (answers : ℕ → Bool) (ids : List ℕ) (p : Pool) → Same p (kill_silent answers ids p)
unfolding kill_silent
kill_silent-Same answers [] p = Same-refl p
kill_silent-Same answers (id ∷ ids) p = elim (Bool-cases (answers id)) [
  | inl e ↦ rw (e, kill_silent) (kill_silent-Same answers ids p)
  | inr e ↦
      rw (e, kill_silent)
        (Same-trans p (kill p id) _ (kill-Same p id) (kill_silent-Same answers ids (kill p id)))
]

pub check_sessions-Same : (answers : ℕ → Bool) (p : Pool) → Same p (check_sessions answers p)
unfolding check_sessions
check_sessions-Same answers p = kill_silent-Same answers (live_sessions p) p

pub close_handle-Same : (p : Pool) (id : ℕ) → Same p (close_handle p id)
unfolding close_handle
close_handle-Same p id = update-Same _ p id

pub subscribe-Same : (p : Pool) → Same p (subscribe p)
unfolding subscribe
subscribe-Same p = ground arith

pub unsubscribe-Same : (p : Pool) → Same p (unsubscribe p)
unfolding unsubscribe
unsubscribe-Same p = record { slots = refl; disconnected = refl; sessions = refl }

pub select-Same : (p : Pool) → Same p (select p).0
select-Same p =
    select_cases (λ x. Same p x.0) p (λ message. unsubscribe-Same p)
      (λ id best.
        Same-trans p (new_lease p id) _ (unfold new_lease in update-Same _ p id)
          (unsubscribe-Same (new_lease p id)))

pub report_connect_error-Same : (e : Error) (p : Pool) → Same p (report_connect_error e p)
unfolding report_connect_error
report_connect_error-Same e p = ground arith

pub report_slots-Same : (p : Pool) → Same p (report_slots p)
unfolding report_slots
report_slots-Same p = record { slots = refl; disconnected = refl; sessions = refl }
