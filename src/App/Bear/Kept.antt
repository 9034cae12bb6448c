-- ===== src/App/Bear/Kept.antt =====
-- The handlers of src/main.rs that leave the form alone, and the calls that they make.
use proxybear.Base.{
  refl, inl, inr, Bool, true, false, Bool-cases, Option, none, some, Text, codes, chain_text,
  if◌then◌else◌, Result, Result-cases, ok, err, ◌>>◌, context, text_eq,
}
use proxybear.Config.{AppConfig, LogLevel}
use proxybear.Stats.{HostKeyPrompt, snapshot, set_host_key_prompt}
use proxybear.Settings.Form.{SettingsTab, apply_to_config}
use proxybear.App.Controller.{is_running}
use proxybear.App.Bear.{
  ProxyBear, Outside, is_logs, refresh_stats, sync_refresh_tasks, stop_proxy, save_config_state,
  save_settings, set_autostart, set_auto_connect,
}
use proxybear.App.Bear.Handlers.{
  restart, set_feedback, show_error, set_log_level, save_field, forget, trusted, trust_prompt,
  trust, reject, select_tab, show_result, server_text,
}
use proxybear.App.Bear.Core.{
  here, Keeps, apart_from, later, refresh_stats-Keeps, start_proxy-Keeps, stop_proxy-Keeps,
}

restart-Keeps : (o : Outside) (a : ProxyBear) → Keeps a (restart o a)
restart-Keeps o a = later (stop_proxy-Keeps o a) (start_proxy-Keeps o (stop_proxy o a))

save_config_state-Keeps :
    (o : Outside) (c : AppConfig) (a : ProxyBear) → Keeps a (save_config_state o c a).0
unfolding save_config_state
save_config_state-Keeps o c a = elim (Result-cases (o.write_config c)) [
  | inl (u, e) ↦ rw (e, save_config_state) (record { form = refl; reaches = here _ })
  | inr (u, e) ↦ rw (e, save_config_state) (record { form = refl; reaches = here _ })
]

pub save_settings-Keeps : (o : Outside) (a : ProxyBear) → Keeps a (save_settings o a).0
unfolding save_settings
save_settings-Keeps o a =
    let r = apply_to_config o.ips a.form a.config in
    elim (Result-cases r.1) [
      | inr (u, e) ↦ rw (e, save_settings) (record { form = refl; reaches = here _ })
      | inl (u, e) ↦ elim (Result-cases (o.write_secrets a.config r.0)) [
        | inr (v, f) ↦ rw (e, f, save_settings) (record { form = refl; reaches = here _ })
        | inl (v, f) ↦ rw (e, f, save_settings) (save_config_state-Keeps o r.0 a)
      ]
    ]

pub set_autostart-Keeps : (o : Outside) (b : Bool) (a : ProxyBear) → Keeps a (set_autostart o b a)
unfolding set_autostart
set_autostart-Keeps o b a = elim (Result-cases (o.write_autostart b)) [
  | inl (u, e) ↦ rw (e, set_autostart) (apart_from refl refl refl (save_config_state-Keeps o _ a))
  | inr (u, e) ↦ rw (e, set_autostart) (record { form = refl; reaches = here _ })
]

pub set_auto_connect-Keeps :
    (o : Outside) (b : Bool) (a : ProxyBear) → Keeps a (set_auto_connect o b a)
unfolding set_auto_connect
set_auto_connect-Keeps o b a = apart_from refl refl refl (save_config_state-Keeps o _ a)

pub set_log_level-Keeps :
    (o : Outside) (l : LogLevel) (a : ProxyBear) → Keeps a (set_log_level o l a)
unfolding set_log_level
set_log_level-Keeps o l a =
    let x = save_config_state o (record a.config { log_level = l }) a in
    let k = save_config_state-Keeps o (record a.config { log_level = l }) a in
    elim (Result-cases (x.1 >> context (codes "update log level") (o.reload_filter l))) [
      | inl (u, e) ↦ rw (e, set_log_level) k
      | inr (u, e) ↦ rw (e, set_log_level) (apart_from refl refl refl k)
    ]

saved-Keeps :
    (o : Outside) (c : ProxyBear) (again : Bool)
    → Keeps c (refresh_stats o (if again then restart o c else c))
saved-Keeps o c true = later (restart-Keeps o c) (refresh_stats-Keeps o (restart o c))
saved-Keeps o c false = refresh_stats-Keeps o c

pub save_field-Keeps : (o : Outside) (again : Bool) (a : ProxyBear) → Keeps a (save_field o again a)
unfolding save_field
save_field-Keeps o again a =
    let b = (save_settings o a).0 in
    let k = save_settings-Keeps o a in
    elim (Result-cases (save_settings o a).1) [
      | inr (e, f) ↦
          let c : ProxyBear = show_error (chain_text e) b in
          rw (f, save_field) (later {b = c} (apart_from refl refl refl k) (refresh_stats-Keeps o c))
      | inl (u, f) ↦
          let c : ProxyBear = set_feedback (codes "Settings saved.") b in
          rw (f, save_field) (later {b = c} (apart_from refl refl refl k) (saved-Keeps o c again))
    ]

pub forget-Keeps : (o : Outside) (a : ProxyBear) → Keeps a (forget o a)
unfolding forget
forget-Keeps o a =
    let c : AppConfig = record a.config { host_fingerprint = none } in
    let k = save_config_state-Keeps o c a in
    elim (Result-cases (save_config_state o c a).1) [
      | inr (u, e) ↦ rw (e, forget) (apart_from refl refl refl k)
      | inl (u, e) ↦ rw (e, forget) (apart_from refl refl refl k)
    ]

trusted-Keeps : (o : Outside) (a : ProxyBear) (r : Result (Unit {0})) → Keeps a (trusted o (a, r))
trusted-Keeps o a (err e) = (record { form = refl; reaches = here _ })
trusted-Keeps o a (ok u) = elim (Bool-cases (is_running a.proxy)) [
  | inl e ↦ rw e (restart-Keeps o a)
  | inr e ↦ rw e (record { form = refl; reaches = here _ })
]

trust_prompt-Keeps :
    (o : Outside) (p : Option HostKeyPrompt) (a : ProxyBear) → Keeps a (trust_prompt o p a)
unfolding trust_prompt
trust_prompt-Keeps o none a = (record { form = refl; reaches = here _ })
trust_prompt-Keeps o (some p) a =
    let b : ProxyBear = record a { stats = set_host_key_prompt none a.stats } in
    let c : AppConfig = record b.config { host_fingerprint = some p.fingerprint } in
    elim (Bool-cases (text_eq p.server (server_text b.config))) [
      | inr e ↦ rw (e, trust_prompt) (record { form = refl; reaches = here _ })
      | inl e ↦
          let x = save_config_state o c b in
          rw (e, trust_prompt)
            (later {b = b} (record { form = refl; reaches = here _ })
              (later (save_config_state-Keeps o c b) (trusted-Keeps o x.0 x.1)))
    ]

pub trust-Keeps : (o : Outside) (a : ProxyBear) → Keeps a (trust o a)
unfolding trust
trust-Keeps o a = trust_prompt-Keeps o (snapshot a.stats).host_key_prompt a

pub reject-Keeps : (o : Outside) (a : ProxyBear) → Keeps a (reject o a)
unfolding reject
reject-Keeps o a =
    let b : ProxyBear = record a { stats = set_host_key_prompt none a.stats } in
    apart_from refl refl refl
      (later {b = b} (record { form = refl; reaches = here _ }) (stop_proxy-Keeps o b))

pub select_tab-Keeps : (t : SettingsTab) (a : ProxyBear) → Keeps a (select_tab t a)
unfolding select_tab sync_refresh_tasks
select_tab-Keeps t a = elim (Bool-cases (is_logs t)) [
  | inl e ↦ rw (e, select_tab) (record { form = refl; reaches = here _ })
  | inr e ↦ rw (e, select_tab) (record { form = refl; reaches = here _ })
]

pub show_result-Keeps :
    (t : Text) (r : Result (Unit {0})) (a : ProxyBear) → Keeps a (show_result t r a)
unfolding show_result
show_result-Keeps t (ok u) a = (record { form = refl; reaches = here _ })
show_result-Keeps t (err e) a = (record { form = refl; reaches = here _ })
