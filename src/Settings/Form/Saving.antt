-- ===== src/Settings/Form/Saving.antt =====
-- What saving the form of src/settings/mod.rs may change, and when the buttons may be enabled.
use proxybear.Base.{
  ◌≢◌, ◌⊎◌, inl, inr, Result-cases, text_eq_iff, ℕ, ◌≤◌, ◌≡◌, ◌↔◌, none, ok, arith,
}
use proxybear.Base.Trim.{trim, trim_idem}
use proxybear.Net.{IpText}
use proxybear.Config.{AppConfig, requires_key, max_pool_size}
use proxybear.Config.Ready.{IsReady}
use proxybear.Settings.Form.{
  SettingsForm, parse_port, parse_pool_size, connection_error, with_server, with_login,
  apply_to_config, save_error,
}

pub parse_pool_size-range :
    (f : SettingsForm) (n : ℕ) → parse_pool_size f ≡ ok n → (1 ≤ n) × (n ≤ max_pool_size)
unfolding parse_pool_size
parse_pool_size-range f n h = ground arith

module _ (ips : IpText) (f : SettingsForm) (c : AppConfig) where
  -- Saving succeeds exactly where the form shows no save error.
  pub apply-save_error : ((apply_to_config ips f c).1 ≡ ok tt) ↔ (save_error ips f ≡ none)
  unfolding apply_to_config save_error
  apply-save_error = ground arith

  -- For a form without a save error: the connect button is enabled exactly if a run may start with the
  -- settings that the form would save.
  pub apply-IsReady :
      save_error ips f ≡ none → connection_error f ≡ none ↔ IsReady (apply_to_config ips f c).0
  unfolding apply_to_config save_error connection_error with_server with_login requires_key
  apply-IsReady h = elim (Result-cases (parse_pool_size f)) [
    | inl (n, e) ↦ ground (
      arith,
      e,
      trim_idem f.server,
      trim_idem f.username,
      trim_idem f.key_path,
      parse_pool_size-range f n e,
    )
    | inr (x, e) ↦ ground (arith, e)
  ]

  -- Where saving succeeds, the saved host key stays if the server and the port stay the same, and is
  -- forgotten if one of them changes.
  pub apply-host_fingerprint :
      (apply_to_config ips f c).1 ≡ ok tt
      → ((trim f.server ≡ c.server)
          × (parse_port f ≡ ok c.port)
          × ((apply_to_config ips f c).0.host_fingerprint ≡ c.host_fingerprint))
        ⊎ (((trim f.server ≢ c.server) ⊎ (parse_port f ≢ ok c.port))
            × ((apply_to_config ips f c).0.host_fingerprint ≡ none))
  unfolding apply_to_config with_server with_login
  apply-host_fingerprint h = ground (arith, text_eq_iff (trim f.server) c.server)

  -- What the form does not show is left alone, also where saving fails half way.
  pub apply_keeps :
      let c' = (apply_to_config ips f c).0 in
      (c'.autostart ≡ c.autostart)
      × (c'.auto_connect ≡ c.auto_connect)
      × (c'.log_level ≡ c.log_level)
      × ((apply_to_config ips f c).1 ≢ ok tt → c'.local_addr ≡ c.local_addr)
  unfolding apply_to_config with_server with_login
  apply_keeps = ground arith
