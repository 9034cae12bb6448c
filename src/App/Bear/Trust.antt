-- ===== src/App/Bear/Trust.antt =====
-- What any event of src/main.rs does to the settings, in memory and in the file, and to the host key
-- in them.
use proxybear.Base.{
  List-cases, codes, ◌∙◌, ℕ, zero, suc, ◌-◌, refl, true, false, not, inl, inr, Option, none, some,
  Text, Error, Bool-cases, Result, ok, err, Result-cases,
}
use proxybear.Settings.Form.{SettingsTab}
use proxybear.Stats.{HostKeyPrompt, snapshot, set_status}
use proxybear.App.Controller.{is_running, finish}
use proxybear.App.Bear.{
  ProxyBear, Outside, is_logs, sync_refresh_tasks, refresh_stats, start_proxy, save_settings,
  revert_form,
}
use proxybear.App.Bear.Saves.{
  open_settings-KeepsSettings, KeepsSettings, refresh_stats-KeepsSettings,
  start_proxy-KeepsSettings, stop_proxy-KeepsSettings,
}
use proxybear.App.Bear.Writes.{
  Writes, Writes-KeepsSettings, save_settings-Writes, set_autostart-Writes, set_auto_connect-Writes,
  set_log_level-Writes, forget-Writes, save_field-Writes, trust_prompt-Writes,
}
use proxybear.App.Bear.Handlers.{
  tab, log_level, start, stop, autostart, auto_connect, save, save_and_start, revert, SettingsField,
  forget_host_key, trust_host_key, reject_host_key, choose_key, open_log, reveal_log, reveal_config,
  check_for_updates, clear_log, field, handle_field, trust, reject, choose_key_path, select_tab,
  show_result, handle_menu, menu, start_stop, settings, toggle_autostart, toggle_auto_connect, quit,
  MenuAction,
}
use proxybear.App.Bear.Events.{
  note_run, step, Event, field_event, menu_event, ended, opened, closing, updates,
  has_unsaved_changes, answered, task_ended, window_opened, settings_closed, should_close,
  resolve_close,
}

-- The prompt that an event may trust: the user must say so.
abbrev pub offered : Event → Option HostKeyPrompt → Option HostKeyPrompt
offered (field_event trust_host_key) shown = shown
offered _ shown = none

show_result-KeepsSettings :
    (t : Text) (r : Result (Unit {0})) (a : ProxyBear) → KeepsSettings a (show_result t r a)
unfolding show_result
show_result-KeepsSettings t (ok u) a = (refl, refl)
show_result-KeepsSettings t (err e) a = (refl, refl)

choose_key_path-KeepsSettings :
    (p : Option Text) (a : ProxyBear) → KeepsSettings a (choose_key_path p a)
unfolding choose_key_path
choose_key_path-KeepsSettings none a = (refl, refl)
choose_key_path-KeepsSettings (some p) a = (refl, refl)

select_tab-KeepsSettings : (t : SettingsTab) (a : ProxyBear) → KeepsSettings a (select_tab t a)
unfolding select_tab sync_refresh_tasks
select_tab-KeepsSettings t a = elim (Bool-cases (is_logs t)) [
  | inl e ↦ rw (e, select_tab) (refl, refl)
  | inr e ↦ rw (e, select_tab) (refl, refl)
]

field-Writes :
    (o : Outside) (f : SettingsField) (a : ProxyBear)
    → Writes o (offered (field_event f) a.stats.host_key_prompt) a (field o f a)
unfolding field trust snapshot
field-Writes o (tab t) a = inl (select_tab-KeepsSettings t a)
field-Writes o (log_level l) a = set_log_level-Writes o none l a
field-Writes o (autostart b) a = set_autostart-Writes o none b a
field-Writes o (auto_connect b) a = set_auto_connect-Writes o none b a
field-Writes o save a = save_field-Writes o none false a
field-Writes o save_and_start a = save_field-Writes o none true a
field-Writes o start a = inl (start_proxy-KeepsSettings o a)
field-Writes o stop a = inl (stop_proxy-KeepsSettings o a)
field-Writes o forget_host_key a = forget-Writes o none a
field-Writes o trust_host_key a = trust_prompt-Writes o a.stats.host_key_prompt a
field-Writes o reject_host_key a = unfold reject in inl (stop_proxy-KeepsSettings o _)
field-Writes o choose_key a = inl (choose_key_path-KeepsSettings _ a)
field-Writes o open_log a = inl (show_result-KeepsSettings _ _ a)
field-Writes o (reveal_log t) a = inl (show_result-KeepsSettings _ _ a)
field-Writes o (reveal_config t) a = inl (show_result-KeepsSettings _ _ a)
field-Writes o clear_log a = inl (show_result-KeepsSettings _ _ a)
field-Writes o check_for_updates a = inl (refl, refl)
field-Writes o revert a = unfold revert_form in inl (refl, refl)
field-Writes o _ a = inl (refl, refl)

menu-Writes : (o : Outside) (m : MenuAction) (a : ProxyBear) → Writes o none a (menu o m a)
unfolding menu
menu-Writes o start_stop a = elim (Bool-cases (is_running a.proxy)) [
  | inl e ↦ rw (e, menu) (inl (stop_proxy-KeepsSettings o a))
  | inr e ↦ rw (e, menu) (inl (start_proxy-KeepsSettings o a))
]
menu-Writes o settings a = inl (open_settings-KeepsSettings o a)
menu-Writes o toggle_autostart a = set_autostart-Writes o none (not a.config.autostart) a
menu-Writes o toggle_auto_connect a = set_auto_connect-Writes o none (not a.config.auto_connect) a
menu-Writes o quit a = inl (stop_proxy-KeepsSettings o a)
menu-Writes o _ a = inl (refl, refl)

note_run-KeepsSettings : (e : Option Error) (a : ProxyBear) → KeepsSettings a (note_run e a)
note_run-KeepsSettings none a = (refl, refl)
note_run-KeepsSettings (some e) a = (refl, refl)

task_ended-KeepsSettings :
    (o : Outside) (e : Option Error) (a : ProxyBear) → KeepsSettings a (task_ended o e a)
unfolding task_ended
task_ended-KeepsSettings o e a = elim (List-cases a.tasks) [
  | inl f ↦ rw (f, task_ended) (refl, refl)
  | inr (t, ts, f) ↦
      let c : ProxyBear = record a {
        proxy = (finish a.proxy).0;
        tasks = ts;
        stats = set_status (codes "Stopped") a.stats;
      } in
      let b = note_run e c in
      let h = note_run-KeepsSettings e c in
      let k = start_proxy-KeepsSettings o b in
      elim (Bool-cases (finish a.proxy).1) [
        | inl g ↦
            let l = refresh_stats-KeepsSettings o (start_proxy o b) in
            rw (f, task_ended) (rw (g, task_ended) (l.0 ∙ k.0 ∙ h.0, l.1 ∙ k.1 ∙ h.1))
        | inr g ↦
            let l = refresh_stats-KeepsSettings o b in
            rw (f, task_ended) (rw (g, task_ended) (l.0 ∙ h.0, l.1 ∙ h.1))
      ]
]

window_opened-KeepsSettings :
    (o : Outside) (r : Result (Unit {0})) (a : ProxyBear) → KeepsSettings a (window_opened o r a)
unfolding window_opened
window_opened-KeepsSettings o (ok u) a =
    let b = refresh_stats o (record a { settings_window = true; opening = a.opening - 1 }) in
    elim (Bool-cases (is_logs b.active_tab)) [
      | inl e ↦
          rw (e, window_opened)
            (refresh_stats-KeepsSettings o
              (record a { settings_window = true; opening = a.opening - 1 }))
      | inr e ↦
          rw (e, window_opened)
            (refresh_stats-KeepsSettings o
              (record a { settings_window = true; opening = a.opening - 1 }))
    ]
window_opened-KeepsSettings o (err e) a = (refl, refl)

answered-Writes : (o : Outside) (n : ℕ) (a : ProxyBear) → Writes o none a (answered o n a).0
answered-Writes o zero a = elim (Result-cases (save_settings o a).1) [
  | inl (u, e) ↦ rw (e, answered) (save_settings-Writes o none a)
  | inr (y, e) ↦ rw (e, answered) (save_settings-Writes o none a)
]
answered-Writes o (suc zero) a = unfold revert_form in inl (refl, refl)
answered-Writes o (suc (suc n)) a = inl (refl, refl)

should_close-Writes : (o : Outside) (n : ℕ) (a : ProxyBear) → Writes o none a (should_close o n a)
unfolding should_close settings_closed resolve_close
should_close-Writes o n a = elim (Bool-cases (has_unsaved_changes o a)) [
  | inr e ↦
      rw (e, should_close)
        (inl (refresh_stats-KeepsSettings o (record a { settings_window = false })))
  | inl e ↦
      let b = (answered o n a).0 in
      let c = refresh_stats o b in
      let kept : Writes o none a c =
        Writes-KeepsSettings o none a b c (answered-Writes o n a)
          (refresh_stats-KeepsSettings o b) in
      let d : ProxyBear = record c { settings_window = false } in
      elim (Bool-cases (answered o n a).1) [
        | inl f ↦
            rw (e, should_close)
              (rw (f, should_close)
                (Writes-KeepsSettings o none a c (refresh_stats o d) kept
                  (refresh_stats-KeepsSettings o d)))
        | inr f ↦ rw (e, should_close) (rw (f, should_close) kept)
      ]
]

-- An event leaves the settings alone, in memory and in the file, or both become settings that were
-- just written; then the host key in them is as before, forgotten, or, where the user chose to trust
-- it, the key of the prompt that the figures then held for the configured server and port.
pub step-Writes :
    (o : Outside) (e : Event) (a : ProxyBear)
    → Writes o (offered e a.stats.host_key_prompt) a (step o e a)
unfolding step handle_field handle_menu
step-Writes o (field_event f) a = field-Writes o f (record a { feedback = none })
step-Writes o (menu_event m) a =
    Writes-KeepsSettings o none a (menu o m a) (refresh_stats o (menu o m a)) (menu-Writes o m a)
      (refresh_stats-KeepsSettings o (menu o m a))
step-Writes o (ended e) a = inl (task_ended-KeepsSettings o e a)
step-Writes o (opened r) a = inl (window_opened-KeepsSettings o r a)
step-Writes o (closing n) a = should_close-Writes o n a
step-Writes o (updates us) a = inl (refresh_stats-KeepsSettings o _)
