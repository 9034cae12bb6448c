-- ===== src/App/Bear/Writes.antt =====
-- What an event of src/main.rs does to the settings, in memory and in the file, and to the host key
-- in them.
use proxybear.Base.{
  chain_text, ◌≡◌, refl, ◌∙◌, ◌⊎◌, Bool, inl, inr, Option, none, some, Bool-cases, Result, ok, err,
  Result-cases, text_eq, text_eq_iff, codes, context, ◌>>◌,
}
use proxybear.Config.{AppConfig, LogLevel, max_pool_size}
use proxybear.Base.{ℕ, ◌≤◌, arith}
use proxybear.Base.Decimal.{u16_max, parse_uint, parse_uint-le}
use proxybear.Base.Trim.{trim}
use proxybear.Net.{IpText}
use proxybear.Settings.Form.{
  SettingsForm, apply_to_config, parse_port, parse_local_addr, parse_pool_size, with_server,
  with_login,
}
use proxybear.Settings.Form.Saving.{parse_pool_size-range}
use proxybear.Settings.Form.Saving.{apply-host_fingerprint}
use proxybear.Stats.{HostKeyPrompt, set_host_key_prompt}
use proxybear.App.Controller.{is_running}
use proxybear.App.Bear.{
  ProxyBear, Outside, refresh_stats, stop_proxy, save_config_state, save_settings, set_autostart,
  set_auto_connect,
}
use proxybear.App.Bear.Saves.{
  KeepsSettings, save_config_state_cases, save_settings_cases, refresh_stats-KeepsSettings,
  start_proxy-KeepsSettings, stop_proxy-KeepsSettings,
}
use proxybear.App.Bear.Handlers.{
  show_error, server_text, set_log_level, save_field, forget, trusted, trust_prompt, restart,
}

-- The host key is as before, forgotten, or the one that a prompt shows for the configured server.
abbrev pub IsTrusted : Option HostKeyPrompt → AppConfig → AppConfig → Type 0
IsTrusted shown old new =
    (new.host_fingerprint ≡ old.host_fingerprint)
    ⊎ (new.host_fingerprint ≡ none)
    ⊎ ((p : HostKeyPrompt) × (shown ≡ some p)
        × (p.server ≡ server_text old)
        × (new.host_fingerprint ≡ some p.fingerprint))

-- A number is as before, or it is in this range.
abbrev pub Within : ℕ → ℕ → ℕ → ℕ → Type 0
Within least most old new = (new ≡ old) ⊎ ((least ≤ new) × (new ≤ most))

-- Each number is as before, or fits its type: the ports have 16 bits, and the number of sessions is
-- that of a pool.
abbrev pub KeepsRanges : AppConfig → AppConfig → Type 0
KeepsRanges old new =
    Within 0 u16_max old.port new.port
    × Within 0 u16_max old.local_addr.port new.local_addr.port
    × Within 1 max_pool_size old.pool_size new.pool_size

-- Either nothing is written and the settings stay, or the settings are those that were written.
abbrev pub Writes : Outside → Option HostKeyPrompt → ProxyBear → ProxyBear → Type 0
Writes o prompt a b =
    KeepsSettings a b
    ⊎ ((b.config ≡ b.stored)
        × (o.write_config b.config ≡ ok tt)
        × IsTrusted prompt a.config b.config
        × KeepsRanges a.config b.config)

pub Writes-KeepsSettings :
    (o : Outside) (p : Option HostKeyPrompt) (a b c : ProxyBear)
    → Writes o p a b
    → KeepsSettings b c
    → Writes o p a c
Writes-KeepsSettings o p a b c (inl h) k = inl (k.0 ∙ h.0, k.1 ∙ h.1)
Writes-KeepsSettings o p a b c (inr (h, w, t, r)) k =
    inr (rw (k.0, k.1) h, rw k.0 w, rw k.0 t, rw k.0 r)

pub saved-Writes :
    (o : Outside) (p : Option HostKeyPrompt) (c : AppConfig) (a : ProxyBear)
    → IsTrusted p a.config c
    → KeepsRanges a.config c
    → Writes o p a (save_config_state o c a).0
saved-Writes o p c a t k =
    save_config_state_cases (λ r. Writes o p a r.0) o c a (λ w. inr (refl, w, t, k))
      λ e. inl (refl, refl)

apply-KeepsRanges :
    (ips : IpText) (f : SettingsForm) (c : AppConfig)
    → (apply_to_config ips f c).1 ≡ ok tt
    → KeepsRanges c (apply_to_config ips f c).0
unfolding apply_to_config parse_port parse_local_addr with_server with_login
apply-KeepsRanges ips f c h = elim (Result-cases (parse_uint u16_max (trim f.port))) [
  | inr (x, e) ↦ absurd (ground (arith, e))
  | inl (n, e) ↦ elim (Result-cases (parse_uint u16_max (trim f.local_port))) [
    | inr (x, g) ↦ absurd (ground (arith, e, g))
    | inl (m, g) ↦ elim (Result-cases (parse_pool_size f)) [
      | inr (x, q) ↦ absurd (ground (arith, e, g, q))
      | inl (k, q) ↦ ground (
        arith,
        e,
        g,
        q,
        parse_uint-le u16_max (trim f.port) n e,
        parse_uint-le u16_max (trim f.local_port) m g,
        parse_pool_size-range f k q,
      )
    ]
  ]
]

pub save_settings-Writes :
    (o : Outside) (p : Option HostKeyPrompt) (a : ProxyBear) → Writes o p a (save_settings o a).0
save_settings-Writes o p a =
    save_settings_cases (λ r. Writes o p a r.0) o a
      (λ h w. inr (
        refl,
        w,
        elim (apply-host_fingerprint o.ips a.form a.config h) [
          | inl (q, r, f) ↦ inl f
          | inr (q, f) ↦ inr (inl f)
        ],
        apply-KeepsRanges o.ips a.form a.config h,
      ))
      λ e. inl (refl, refl)

pub set_autostart-Writes :
    (o : Outside) (p : Option HostKeyPrompt) (b : Bool) (a : ProxyBear)
    → Writes o p a (set_autostart o b a)
unfolding set_autostart
set_autostart-Writes o p b a = elim (Result-cases (o.write_autostart b)) [
  | inl (u, e) ↦
      rw (e, set_autostart)
        (saved-Writes o p (record a.config { autostart = b }) a (inl refl)
          (inl refl, inl refl, inl refl))
  | inr (x, e) ↦ rw (e, set_autostart) (inl (refl, refl))
]

pub set_auto_connect-Writes :
    (o : Outside) (p : Option HostKeyPrompt) (b : Bool) (a : ProxyBear)
    → Writes o p a (set_auto_connect o b a)
unfolding set_auto_connect
set_auto_connect-Writes o p b a =
    saved-Writes o p (record a.config { auto_connect = b }) a (inl refl)
      (inl refl, inl refl, inl refl)

pub set_log_level-Writes :
    (o : Outside) (p : Option HostKeyPrompt) (l : LogLevel) (a : ProxyBear)
    → Writes o p a (set_log_level o l a)
unfolding set_log_level
set_log_level-Writes o p l a =
    let c : AppConfig = record a.config { log_level = l } in
    let x = save_config_state o c a in
    elim (Result-cases (x.1 >> context (codes "update log level") (o.reload_filter l))) [
      | inl (u, e) ↦
          rw (e, set_log_level) (saved-Writes o p c a (inl refl) (inl refl, inl refl, inl refl))
      | inr (y, e) ↦
          rw (e, set_log_level) (saved-Writes o p c a (inl refl) (inl refl, inl refl, inl refl))
    ]

pub forget-Writes :
    (o : Outside) (p : Option HostKeyPrompt) (a : ProxyBear) → Writes o p a (forget o a)
unfolding forget
forget-Writes o p a =
    let c : AppConfig = record a.config { host_fingerprint = none } in
    let x = save_config_state o c a in
    elim (Result-cases x.1) [
      | inl (u, e) ↦
          rw (e, forget) (saved-Writes o p c a (inr (inl refl)) (inl refl, inl refl, inl refl))
      | inr (y, e) ↦
          rw (e, forget) (saved-Writes o p c a (inr (inl refl)) (inl refl, inl refl, inl refl))
    ]

pub restart-KeepsSettings : (o : Outside) (a : ProxyBear) → KeepsSettings a (restart o a)
restart-KeepsSettings o a =
    let h = stop_proxy-KeepsSettings o a in
    let k = start_proxy-KeepsSettings o (stop_proxy o a) in (k.0 ∙ h.0, k.1 ∙ h.1)

pub save_field-Writes :
    (o : Outside) (p : Option HostKeyPrompt) (starts : Bool) (a : ProxyBear)
    → Writes o p a (save_field o starts a)
unfolding save_field
save_field-Writes o p starts a =
    let x = save_settings o a in
    elim (Result-cases x.1) [
      | inr (y, e) ↦
          let d = show_error (chain_text y) x.0 in
          rw (e, save_field)
            (Writes-KeepsSettings o p a x.0 (refresh_stats o d) (save_settings-Writes o p a)
              (refresh_stats-KeepsSettings o d))
      | inl (u, e) ↦
          let c : ProxyBear = record x.0 { feedback = some (codes "Settings saved.") } in
          let saved : Writes o p a c =
            Writes-KeepsSettings o p a x.0 c (save_settings-Writes o p a) (refl, refl) in
          elim (Bool-cases starts) [
            | inl f ↦
                rw (e, save_field)
                  (rw (f, save_field)
                    (Writes-KeepsSettings o p a (restart o c) (refresh_stats o (restart o c))
                      (Writes-KeepsSettings o p a c (restart o c) saved (restart-KeepsSettings o c))
                      (refresh_stats-KeepsSettings o (restart o c))))
            | inr f ↦
                rw (e, save_field)
                  (rw (f, save_field)
                    (Writes-KeepsSettings o p a c (refresh_stats o c) saved
                      (refresh_stats-KeepsSettings o c)))
          ]
    ]

pub trusted-Writes :
    (o : Outside) (p : Option HostKeyPrompt) (a b : ProxyBear) (r : Result (Unit {0}))
    → Writes o p a b
    → Writes o p a (trusted o (b, r))
trusted-Writes o p a b (err e) h = h
trusted-Writes o p a b (ok u) h = elim (Bool-cases (is_running b.proxy)) [
  | inl e ↦
      rw (e, trusted) (Writes-KeepsSettings o p a b (restart o b) h (restart-KeepsSettings o b))
  | inr e ↦ rw (e, trusted) h
]

pub trust_prompt-Writes :
    (o : Outside) (p : Option HostKeyPrompt) (a : ProxyBear) → Writes o p a (trust_prompt o p a)
unfolding trust_prompt
trust_prompt-Writes o none a = inl (refl, refl)
trust_prompt-Writes o (some q) a = elim (Bool-cases (text_eq q.server (server_text a.config))) [
  | inr e ↦ rw (e, trust_prompt) (inl (refl, refl))
  | inl e ↦
      let b : ProxyBear = record a { stats = set_host_key_prompt none a.stats } in
      let c : AppConfig = record b.config { host_fingerprint = some q.fingerprint } in
      let x = save_config_state o c b in
      let same : q.server ≡ server_text a.config =
        (text_eq_iff q.server (server_text a.config)).0 e in
      rw (e, trust_prompt)
        (trusted-Writes o (some q) a x.0 x.1 (
          saved-Writes o (some q) c b (inr (inr (q, refl, same, refl)))
            (inl refl, inl refl, inl refl)))
]
