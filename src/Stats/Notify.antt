-- ===== src/Stats/Notify.antt =====
-- When src/app/stats.rs tells the user interface, and what the byte counters hold.
use proxybear.Base.{
  ◌∙◌, ◌^◌, ◌%◌, ◌<◌, ◌+◌, ℕ, suc, ◌≡◌, refl, ◌↔◌, ◌⊎◌, true, Option, none, some, List, [], ◌∷◌,
  Text, text_eq_iff, option_text_eq_iff, arith,
}
use proxybear.Stats.{
  HostKeyPrompt, ProxyStats, prompt_eq, option_prompt_eq, set_status, set_error, clear_error,
  set_host_key_prompt, ssh_connected, ssh_disconnected, add_up, add_down,
}

-- The calls that change the shared state.
pub data Update : Type 0 where
  status : Text → Update
  error : Text → Update
  no_error : Update
  prompt : Option HostKeyPrompt → Update
  connected disconnected : Update
  up down : ℕ → Update

unfoldable pub apply : Update → ProxyStats → ProxyStats
apply (status t) s = set_status t s
apply (error t) s = set_error t s
apply no_error s = clear_error s
apply (prompt p) s = set_host_key_prompt p s
apply connected s = ssh_connected s
apply disconnected s = ssh_disconnected s
apply (up n) s = add_up n s
apply (down n) s = add_down n s

unfoldable pub apply_all : List Update → ProxyStats → ProxyStats
apply_all [] s = s
apply_all (u ∷ us) s = apply_all us (apply u s)

pub prompt_eq_iff : (p q : HostKeyPrompt) → (prompt_eq p q ≡ true) ↔ (p ≡ q)
prompt_eq_iff p q = grind (
  arith,
  text_eq_iff p.server q.server,
  text_eq_iff p.fingerprint q.fingerprint,
  option_text_eq_iff p.previous q.previous,
)

pub option_prompt_eq_iff : (p q : Option HostKeyPrompt) → (option_prompt_eq p q ≡ true) ↔ (p ≡ q)
option_prompt_eq_iff none none = (λ _. refl, λ _. refl)
option_prompt_eq_iff none (some q) = (λ e. cc, λ e. cc)
option_prompt_eq_iff (some p) none = (λ e. cc, λ e. cc)
option_prompt_eq_iff (some p) (some q) = ground (arith, prompt_eq_iff p q)

-- The byte counters aside, two states that show the user the same.
pub record SameView (s t : ProxyStats) : Type 0 where
  pub connected : s.ssh_connected ≡ t.ssh_connected
  pub status : s.status ≡ t.status
  pub error : s.last_error ≡ t.last_error
  pub prompt : s.host_key_prompt ≡ t.host_key_prompt

abbrev pub Notified : ProxyStats → ProxyStats → Type 0
Notified s t =
    (SameView s t × (t.changes ≡ s.changes)) ⊎ (¬ SameView s t × (t.changes ≡ suc s.changes))

-- An update tells the user interface once if what it shows has changed, and not at all if it has not.
pub notifies_iff_changed : (u : Update) (s : ProxyStats) → Notified s (apply u s)
unfolding apply set_status set_error clear_error set_host_key_prompt ssh_connected ssh_disconnected
    add_up add_down
notifies_iff_changed (status t) s = ground (arith, text_eq_iff s.status t)
notifies_iff_changed (error t) s = ground (arith, option_text_eq_iff s.last_error (some t))
notifies_iff_changed no_error s = ground arith
notifies_iff_changed (prompt p) s = ground (arith, option_prompt_eq_iff s.host_key_prompt p)
notifies_iff_changed connected s = ground arith
notifies_iff_changed disconnected s = ground arith
notifies_iff_changed (up n) s = ground arith
notifies_iff_changed (down n) s = ground arith

-- The bytes that a history of updates counts one way.
abbrev pub bytes_up_of : List Update → ℕ
bytes_up_of [] = 0
bytes_up_of (up n ∷ us) = n + bytes_up_of us
bytes_up_of (u ∷ us) = bytes_up_of us

abbrev pub bytes_down_of : List Update → ℕ
bytes_down_of [] = 0
bytes_down_of (down n ∷ us) = n + bytes_down_of us
bytes_down_of (u ∷ us) = bytes_down_of us

apply_bytes :
    (u : Update) (us : List Update) (s : ProxyStats)
    → ((((apply u s).bytes_up + bytes_up_of us) % 2 ^ 64)
        ≡ ((s.bytes_up + bytes_up_of (u ∷ us)) % 2 ^ 64))
      × ((((apply u s).bytes_down + bytes_down_of us) % 2 ^ 64)
          ≡ ((s.bytes_down + bytes_down_of (u ∷ us)) % 2 ^ 64))
unfolding apply set_status set_error clear_error set_host_key_prompt ssh_connected ssh_disconnected
    add_up add_down
apply_bytes (status t) us s = ground arith
apply_bytes (error t) us s = ground arith
apply_bytes no_error us s = ground arith
apply_bytes (prompt p) us s = ground arith
apply_bytes connected us s = ground arith
apply_bytes disconnected us s = ground arith
apply_bytes (up n) us s = omega arith
apply_bytes (down n) us s = omega arith

-- The counters fit into 64 bits.
abbrev pub CountersFit : ProxyStats → Type 0
CountersFit s = (s.bytes_up < 2 ^ 64) × (s.bytes_down < 2 ^ 64)

apply-CountersFit : (u : Update) (s : ProxyStats) → CountersFit s → CountersFit (apply u s)
unfolding apply set_status set_error clear_error set_host_key_prompt ssh_connected ssh_disconnected
    add_up add_down
apply-CountersFit (status t) s h = ground arith
apply-CountersFit (error t) s h = ground arith
apply-CountersFit no_error s h = ground arith
apply-CountersFit (prompt p) s h = ground arith
apply-CountersFit connected s h = ground arith
apply-CountersFit disconnected s h = ground arith
apply-CountersFit (up n) s h = (omega arith, h.1)
apply-CountersFit (down n) s h = (h.0, omega arith)

-- If the counters fit into 64 bits, then, whatever other updates come in between, each goes on holding
-- exactly the bytes that were counted, reduced to 64 bits.
pub apply_all-bytes :
    (us : List Update) (s : ProxyStats)
    → CountersFit s
    → ((apply_all us s).bytes_up ≡ (s.bytes_up + bytes_up_of us) % 2 ^ 64)
      × ((apply_all us s).bytes_down ≡ (s.bytes_down + bytes_down_of us) % 2 ^ 64)
unfolding apply_all
apply_all-bytes [] s h = (omega (arith, h.0), omega (arith, h.1))
apply_all-bytes (u ∷ us) s h =
    let rest = apply_all-bytes us (apply u s) (apply-CountersFit u s h) in
    let first = apply_bytes u us s in (rest.0 ∙ first.0, rest.1 ∙ first.1)
