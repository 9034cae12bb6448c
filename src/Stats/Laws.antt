-- ===== src/Stats/Laws.antt =====
-- What each operation of src/app/stats.rs sets, and what it leaves alone.
use proxybear.Base.{◌≡◌, true, false, none, some, Text, text_eq_iff, option_text_eq_iff, arith}
use proxybear.Stats.{
  ProxyStats, set_status, set_error, clear_error, ssh_connected, ssh_disconnected,
}

pub set_status_lem :
    (t : Text) (s : ProxyStats)
    → let s' = set_status t s in
      (s'.status ≡ t) × (s'.ssh_connected ≡ s.ssh_connected) × (s'.last_error ≡ s.last_error)
unfolding set_status
set_status_lem t s = ground (arith, text_eq_iff s.status t)

pub set_error_lem :
    (t : Text) (s : ProxyStats)
    → let s' = set_error t s in
      (s'.last_error ≡ some t) × (s'.ssh_connected ≡ s.ssh_connected) × (s'.status ≡ s.status)
unfolding set_error
set_error_lem t s = ground (arith, option_text_eq_iff s.last_error (some t))

pub clear_error_lem :
    (s : ProxyStats)
    → let s' = clear_error s in
      (s'.last_error ≡ none) × (s'.ssh_connected ≡ s.ssh_connected) × (s'.status ≡ s.status)
unfolding clear_error
clear_error_lem s = ground arith

pub ssh_connected_lem :
    (s : ProxyStats)
    → let s' = ssh_connected s in
      (s'.ssh_connected ≡ true) × (s'.last_error ≡ s.last_error) × (s'.status ≡ s.status)
unfolding ssh_connected
ssh_connected_lem s = ground arith

pub ssh_disconnected_lem :
    (s : ProxyStats)
    → let s' = ssh_disconnected s in
      (s'.ssh_connected ≡ false) × (s'.last_error ≡ s.last_error) × (s'.status ≡ s.status)
unfolding ssh_disconnected
ssh_disconnected_lem s = ground arith
