-- ===== src/App/View/Pages.antt =====
-- What the pages of src/settings/view/connection.rs and src/settings/view/general.rs offer: which
-- buttons are enabled, where they lead, and the message at the foot of the page.
use proxybear.Base.{
  ◌≡◌, ◌∙◌, ◌↔◌, sym, subst, ap, arith, Bool, true, false, not, ◌&&◌, Option, none, some, Text,
  codes, if◌then◌else◌, Result, ok, err, Result-cases, inl, inr,
}
use proxybear.Config.{requires_key, AppConfig, runtime_config, validate_ready}
use proxybear.Config.Ready.{IsReady}
use proxybear.Settings.Form.{
  exposes_proxy, connection_error, save_error, apply_to_config, connection,
}
use proxybear.Settings.Form.Saving.{apply-save_error, apply-IsReady}
use proxybear.App.Controller.{is_running}
use proxybear.App.Bear.{is_some, ProxyBear, Outside, save_settings, save_config_state}
use proxybear.App.Bear.Handlers.{SettingsField, tab, start, stop}
use proxybear.App.View.Status.{Tone, danger, warning, foreground, muted}
use proxybear.App.Bear.Events.{has_unsaved_changes}

pub record ConnectionPage : Type 0 where
  pub can_save : Bool
  pub can_start : Bool
  pub message : Option (Text × Tone)
  pub start_label : Text
  pub uses_key : Bool
  pub host_key : Text
  pub can_forget : Bool
  pub exposed : Bool

abbrev is_none {ℓ} : {A : Type ℓ} → Option A → Bool
is_none none = true
is_none (some a) = false

-- `or_else` for a text of this tone.
unfoldable pub or_text : Option Text → Tone → Option (Text × Tone) → Option (Text × Tone)
or_text none t next = next
or_text (some x) t next = some (x, t)

unfoldable pub unsaved : Bool → Bool → Option (Text × Tone)
unsaved dirty running =
    if not dirty
    then none
    else some (
      if running
          then codes "Unsaved changes. Restart the proxy to apply them."
          else codes "Unsaved changes.",
      muted,
    )

unfoldable pub connection_page : Outside → ProxyBear → ConnectionPage
unfolding or_text unsaved has_unsaved_changes is_running save_error connection_error
connection_page o a =
    let save_err = save_error o.ips a.form in
    let connect_err = connection_error a.form in
    let dirty = has_unsaved_changes o a in
    record {
      can_save = dirty && is_none save_err;
      can_start = is_none save_err && is_none connect_err;
      message = or_text a.stats_snapshot.last_error danger (
          or_text save_err warning (
            or_text a.feedback foreground
              (or_text connect_err warning (unsaved dirty (is_running a.proxy)))));
      start_label = if is_running a.proxy then codes "Save and Restart" else codes "Save and Start";
      uses_key = requires_key a.form.auth_method;
      host_key = elim a.config.host_fingerprint [
        | some key ↦ key
        | none ↦ codes "Not verified yet. You will be asked on the next connection."
      ];
      can_forget = is_some a.config.host_fingerprint;
      exposed = exposes_proxy o.ips a.form;
    }

abbrev pub is_ok {ℓ} : {A : Type ℓ} → Result A → Bool
is_ok (ok a) = true
is_ok (err e) = false

-- What the button beside the status does.
unfoldable pub action : Outside → ProxyBear → SettingsField
unfolding is_running validate_ready
action o a =
    if is_running a.proxy
    then stop
    else if is_ok (validate_ready o.home a.config)
    then start
    else tab connection

validate_ready-IsReady :
    (home : Option Text) (c : AppConfig) → (is_ok (validate_ready home c) ≡ true) ↔ IsReady c
unfolding validate_ready runtime_config
validate_ready-IsReady home c = ground arith

action-start :
    (o : Outside) (a : ProxyBear)
    → is_running a.proxy ≡ false
    → (action o a ≡ start) ↔ IsReady a.config
unfolding action
action-start o a h = ground (arith, validate_ready-IsReady o.home a.config)

can_start-none :
    (o : Outside) (a : ProxyBear)
    → ((connection_page o a).can_start ≡ true)
      ↔ ((save_error o.ips a.form ≡ none) × (connection_error a.form ≡ none))
unfolding connection_page
can_start-none o a = ground arith

-- On a system that writes what it is told to.
abbrev pub Writes : Outside → Type 0
Writes o =
    ((c : AppConfig) → o.write_config c ≡ ok tt) × ((c d : AppConfig) → o.write_secrets c d ≡ ok tt)

save_settings-Writes :
    (o : Outside) (a : ProxyBear)
    → Writes o
    → save_error o.ips a.form ≡ none
    → ((save_settings o a).1 ≡ ok tt)
      × ((save_settings o a).0.config ≡ (apply_to_config o.ips a.form a.config).0)
      × ((save_settings o a).0.proxy ≡ a.proxy)
unfolding save_settings save_config_state
save_settings-Writes o a (w, v) h =
    let r = apply_to_config o.ips a.form a.config in
    let e = (apply-save_error o.ips a.form a.config).1 h in ground (arith, e, w r.0, v a.config r.0)

save_settings-save_error :
    (o : Outside) (a : ProxyBear) → (save_settings o a).1 ≡ ok tt → save_error o.ips a.form ≡ none
unfolding save_settings
save_settings-save_error o a h = elim (Result-cases (apply_to_config o.ips a.form a.config).1) [
  | inl (u, e) ↦ (apply-save_error o.ips a.form a.config).0 e
  | inr (x, e) ↦ absurd (ground (arith, e))
]

-- On a system that writes what it is told to, while no proxy runs: the page enables the button that
-- saves and starts exactly if the settings can be saved and the saved settings then offer to start the
-- proxy, rather than to set it up.
pub can_start-action :
    (o : Outside) (a : ProxyBear)
    → Writes o
    → is_running a.proxy ≡ false
    → ((connection_page o a).can_start ≡ true)
      ↔ (((save_settings o a).1 ≡ ok tt) × (action o (save_settings o a).0 ≡ start))
can_start-action o a w r =
    let b = (save_settings o a).0 in
    let saved = save_settings-Writes o a w in
    let running : save_error o.ips a.form ≡ none → is_running b.proxy ≡ false =
      λ h. ap is_running (saved h).2 ∙ r in
    let ready = apply-IsReady o.ips a.form a.config in
    (
      (λ h.
          let (s, c) = (can_start-none o a).0 h in
          (
            (saved s).0,
            (action-start o b (running s)).1 (subst IsReady (sym (saved s).1) ((ready s).0 c)),
          )),
      (λ (e, h).
          let s = save_settings-save_error o a e in
          (can_start-none o a).1
            (s, (ready s).1 (subst IsReady (saved s).1 ((action-start o b (running s)).0 h)))),
    )
