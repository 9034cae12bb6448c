-- ===== src/App/Bear/Steady.antt =====
-- The routines of src/main.rs that leave alone what the background tasks depend on.
use proxybear.Base.{
  sym, context, ◌>>◌, ◌∙◌, ◌≡◌, refl, Bool, inl, inr, Option, none, some, Result-cases,
}
use proxybear.App.Bear.{
  codes, LogLevel, Text, AppConfig, ProxyBear, Outside, wants_stats, save_config_state,
  set_autostart, set_auto_connect,
}
use proxybear.App.Bear.Background.{IsRefreshed}
use proxybear.App.Bear.Saves.{save_config_state_cases}
use proxybear.App.Bear.Handlers.{set_log_level, forget, choose_key_path}

-- The fields that the background tasks and the icon depend on are the same.
abbrev pub SamePolls : ProxyBear → ProxyBear → Type 0
SamePolls a b =
    (b.proxy ≡ a.proxy)
    × (b.settings_window ≡ a.settings_window)
    × (b.menu_open ≡ a.menu_open)
    × (b.active_tab ≡ a.active_tab)
    × (b.stats_task ≡ a.stats_task)
    × (b.log_task ≡ a.log_task)
    × (b.icon ≡ a.icon)
    × (b.stats_snapshot ≡ a.stats_snapshot)

pub SamePolls-IsRefreshed :
    (Fails : Type 0) (a b : ProxyBear) → SamePolls a b → IsRefreshed Fails a → IsRefreshed Fails b
unfolding wants_stats
SamePolls-IsRefreshed Fails a b k h = record {
  stats_task = let (p, w, m, t, x, l, i, s) = k in cc (h.stats_task, p, w, m, x);
  log_task = λ e. let (p, w, m, t, x, l, i, s) = k in l ∙ h.log_task (cc (w, t, e));
  log_only = λ e. let (p, w, m, t, x, l, i, s) = k in rw (w, t, s) (h.log_only (sym l ∙ e));
  icon = let (p, w, m, t, x, l, i, s) = k in rw (p, s, i) h.icon;
}

pub saved-SamePolls :
    (o : Outside) (c : AppConfig) (a : ProxyBear) → SamePolls a (save_config_state o c a).0
saved-SamePolls o c a =
    save_config_state_cases (λ r. SamePolls a r.0) o c a
      (λ _. (refl, refl, refl, refl, refl, refl, refl, refl))
      λ e. (refl, refl, refl, refl, refl, refl, refl, refl)

pub set_autostart-SamePolls :
    (o : Outside) (b : Bool) (a : ProxyBear) → SamePolls a (set_autostart o b a)
unfolding set_autostart
set_autostart-SamePolls o b a = elim (Result-cases (o.write_autostart b)) [
  | inl (u, e) ↦ rw (e, set_autostart) (saved-SamePolls o _ a)
  | inr (x, e) ↦ rw (e, set_autostart) (refl, refl, refl, refl, refl, refl, refl, refl)
]

pub set_auto_connect-SamePolls :
    (o : Outside) (b : Bool) (a : ProxyBear) → SamePolls a (set_auto_connect o b a)
unfolding set_auto_connect
set_auto_connect-SamePolls o b a = saved-SamePolls o _ a

pub set_log_level-SamePolls :
    (o : Outside) (l : LogLevel) (a : ProxyBear) → SamePolls a (set_log_level o l a)
unfolding set_log_level
set_log_level-SamePolls o l a =
    let x = save_config_state o (record a.config { log_level = l }) a in
    elim (Result-cases (x.1 >> context (codes "update log level") (o.reload_filter l))) [
      | inl (u, e) ↦ rw (e, set_log_level) (saved-SamePolls o _ a)
      | inr (y, e) ↦ rw (e, set_log_level) (saved-SamePolls o _ a)
    ]

pub forget-SamePolls : (o : Outside) (a : ProxyBear) → SamePolls a (forget o a)
unfolding forget
forget-SamePolls o a =
    let x = save_config_state o (record a.config { host_fingerprint = none }) a in
    elim (Result-cases x.1) [
      | inl (u, e) ↦ rw (e, forget) (saved-SamePolls o _ a)
      | inr (y, e) ↦ rw (e, forget) (saved-SamePolls o _ a)
    ]

pub choose_key_path-SamePolls :
    (p : Option Text) (a : ProxyBear) → SamePolls a (choose_key_path p a)
unfolding choose_key_path
choose_key_path-SamePolls none a = (refl, refl, refl, refl, refl, refl, refl, refl)
choose_key_path-SamePolls (some p) a = (refl, refl, refl, refl, refl, refl, refl, refl)
