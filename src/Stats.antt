-- ===== src/Stats.antt =====
-- src/app/stats.rs: the figures and messages that the proxy's tasks share with the user interface.
-- Each operation runs under its own lock or is one atomic access, so it is one step of the state.
-- `changes` counts the calls of `notify_changed`; the bounded channel behind it may drop a message.
pub mod Laws
pub mod Notify
pub mod Snapshots
mod Tests
use proxybear.Base.{
  ℕ, suc, ◌+◌, ◌%◌, ◌^◌, Bool, true, false, ◌&&◌, Option, none, some, [], Text, text_eq,
  option_text_eq, if◌then◌else◌,
}

pub record HostKeyPrompt : Type 0 where
  pub server : Text
  pub fingerprint : Text
  pub previous : Option Text

-- The derived `==`.
abbrev pub prompt_eq : HostKeyPrompt → HostKeyPrompt → Bool
prompt_eq p q =
    text_eq p.server q.server
    && text_eq p.fingerprint q.fingerprint
    && option_text_eq p.previous q.previous

abbrev pub option_prompt_eq : Option HostKeyPrompt → Option HostKeyPrompt → Bool
option_prompt_eq none none = true
option_prompt_eq none (some q) = false
option_prompt_eq (some p) none = false
option_prompt_eq (some p) (some q) = prompt_eq p q

pub record StatsSnapshot : Type 0 where
  pub ssh_connected : Bool
  pub bytes_up : ℕ
  pub bytes_down : ℕ
  pub status : Text
  pub last_error : Option Text
  pub host_key_prompt : Option HostKeyPrompt

pub record ProxyStats : Type 0 where
  pub ssh_connected : Bool
  pub bytes_up : ℕ
  pub bytes_down : ℕ
  pub status : Text
  pub last_error : Option Text
  pub host_key_prompt : Option HostKeyPrompt
  pub changes : ℕ

-- `ProxyStats::default()`.
unfoldable pub default : ProxyStats
default = record {
  ssh_connected = false;
  bytes_up = 0;
  bytes_down = 0;
  status = [];
  last_error = none;
  host_key_prompt = none;
  changes = 0;
}

abbrev pub notify_changed : ProxyStats → ProxyStats
notify_changed s = record s { changes = suc s.changes }

unfoldable pub set_status : Text → ProxyStats → ProxyStats
set_status status s =
    if text_eq s.status status then s else notify_changed (record s { status = status })

unfoldable pub set_error : Text → ProxyStats → ProxyStats
set_error error s =
    if option_text_eq s.last_error (some error)
    then s
    else notify_changed (record s { last_error = some error })

unfoldable pub clear_error : ProxyStats → ProxyStats
clear_error s = elim s.last_error [
  | none ↦ s
  | some _ ↦ notify_changed (record s { last_error = none })
]

unfoldable pub set_host_key_prompt : Option HostKeyPrompt → ProxyStats → ProxyStats
set_host_key_prompt prompt s =
    if option_prompt_eq s.host_key_prompt prompt
    then s
    else notify_changed (record s { host_key_prompt = prompt })

unfoldable pub ssh_connected : ProxyStats → ProxyStats
ssh_connected s = if s.ssh_connected then s else notify_changed (record s { ssh_connected = true })

unfoldable pub ssh_disconnected : ProxyStats → ProxyStats
ssh_disconnected s =
    if s.ssh_connected then notify_changed (record s { ssh_connected = false }) else s

-- `usize` to `u64` loses nothing; the counter wraps.
unfoldable pub add_up : ℕ → ProxyStats → ProxyStats
add_up bytes s = record s { bytes_up = (s.bytes_up + bytes) % 2 ^ 64 }

unfoldable pub add_down : ℕ → ProxyStats → ProxyStats
add_down bytes s = record s { bytes_down = (s.bytes_down + bytes) % 2 ^ 64 }

unfoldable pub snapshot : ProxyStats → StatsSnapshot
snapshot s = record {
  ssh_connected = s.ssh_connected;
  bytes_up = s.bytes_up;
  bytes_down = s.bytes_down;
  status = s.status;
  last_error = s.last_error;
  host_key_prompt = s.host_key_prompt;
}
