-- ===== src/App/Bear/Polling.antt =====
-- Which background tasks of src/main.rs run after any events.
use proxybear.Base.{
  List-cases, text_eq, ◌-◌, Error, ℕ, refl, Bool, true, false, inl, inr, Option, none, some, List,
  [], ◌∷◌, arith, Bool-cases, Result, ok, err, Result-cases,
}
use proxybear.Stats.{set_host_key_prompt, HostKeyPrompt}
use proxybear.App.Bear.{
  SettingsTab, Text, is_running, ProxyBear, Outside, wants_stats, sync_refresh_tasks, refresh_stats,
  start_proxy, stop_proxy, save_config_state, save_settings, revert_form, is_logs,
}
use proxybear.App.Bear.Background.{Draws, IsRefreshed, refresh-IsRefreshed}
use proxybear.App.Bear.Steady.{
  SamePolls, SamePolls-IsRefreshed, saved-SamePolls, set_autostart-SamePolls,
  set_auto_connect-SamePolls, set_log_level-SamePolls, forget-SamePolls, choose_key_path-SamePolls,
}
use proxybear.App.Bear.Handlers.{
  tab, log_level, start, stop, autostart, auto_connect, save, save_and_start, revert, SettingsField,
  forget_host_key, trust_host_key, reject_host_key, choose_key, open_log, reveal_log, reveal_config,
  check_for_updates, clear_log, field, handle_field, trust, trust_prompt, trusted, save_field,
  reject, select_tab, show_result, handle_menu, server_text,
}
use proxybear.App.Bear.Events.{
  step, run, Event, field_event, menu_event, ended, opened, closing, updates, has_unsaved_changes,
  answered, task_ended, window_opened, settings_closed, should_close, resolve_close,
}

module _ (Fails : Type 0) where
  pub refreshed :
      (o : Outside) (w : Draws Fails o) (a : ProxyBear) → IsRefreshed Fails (refresh_stats o a)
  unfolding refresh_stats
  refreshed o w a = refresh-IsRefreshed Fails 1 o a w

  front-IsRefreshed :
      (t : SettingsTab) (a : ProxyBear)
      → IsRefreshed Fails a
      → IsRefreshed Fails (sync_refresh_tasks (record a { active_tab = t }))
  unfolding sync_refresh_tasks wants_stats
  front-IsRefreshed t a h = record {
    stats_task = ground arith;
    log_task = ground arith;
    log_only = ground arith;
    icon = h.icon;
  }

  pub start_proxy-IsRefreshed :
      (o : Outside) (w : Draws Fails o) (a : ProxyBear) → IsRefreshed Fails (start_proxy o a)
  unfolding start_proxy
  start_proxy-IsRefreshed o w a = refreshed o w _

  stop_proxy-IsRefreshed :
      (o : Outside) (w : Draws Fails o) (a : ProxyBear) → IsRefreshed Fails (stop_proxy o a)
  unfolding stop_proxy
  stop_proxy-IsRefreshed o w a = refreshed o w _

  save_field-IsRefreshed :
      (o : Outside) (w : Draws Fails o) (starts : Bool) (a : ProxyBear)
      → IsRefreshed Fails (save_field o starts a)
  unfolding save_field
  save_field-IsRefreshed o w starts a = elim (Result-cases (save_settings o a).1) [
    | inl (u, e) ↦ rw (e, save_field) (refreshed o w _)
    | inr (y, e) ↦ rw (e, save_field) (refreshed o w _)
  ]

  trusted-IsRefreshed :
      (o : Outside) (w : Draws Fails o) (a b : ProxyBear) (r : Result (Unit {0}))
      → SamePolls a b
      → IsRefreshed Fails a
      → IsRefreshed Fails (trusted o (b, r))
  trusted-IsRefreshed o w a b (err e) k h = SamePolls-IsRefreshed Fails a _ k h
  trusted-IsRefreshed o w a b (ok u) k h = elim (Bool-cases (is_running b.proxy)) [
    | inl e ↦ rw (e, trusted) (start_proxy-IsRefreshed o w _)
    | inr e ↦ rw (e, trusted) (SamePolls-IsRefreshed Fails a b k h)
  ]

  trust_prompt-IsRefreshed :
      (o : Outside) (w : Draws Fails o) (p : Option HostKeyPrompt) (a : ProxyBear)
      → IsRefreshed Fails a
      → IsRefreshed Fails (trust_prompt o p a)
  unfolding trust_prompt
  trust_prompt-IsRefreshed o w none a h = h
  trust_prompt-IsRefreshed o w (some p) a h =
      elim (Bool-cases (text_eq p.server (server_text a.config))) [
        | inl e ↦
            let b : ProxyBear = record a { stats = set_host_key_prompt none a.stats } in
            let x =
              save_config_state o (record b.config { host_fingerprint = some p.fingerprint }) b in
            rw (e, trust_prompt) (trusted-IsRefreshed o w a x.0 x.1 (saved-SamePolls o _ b) h)
        | inr e ↦
            rw (e, trust_prompt)
              (SamePolls-IsRefreshed Fails a _ (refl, refl, refl, refl, refl, refl, refl, refl) h)
      ]

  show_result-IsRefreshed :
      (t : Text) (r : Result (Unit {0})) (a : ProxyBear)
      → IsRefreshed Fails a
      → IsRefreshed Fails (show_result t r a)
  unfolding show_result
  show_result-IsRefreshed t (ok u) a h = h
  show_result-IsRefreshed t (err e) a h =
      SamePolls-IsRefreshed Fails a _ (refl, refl, refl, refl, refl, refl, refl, refl) h

  select_tab-IsRefreshed :
      (t : SettingsTab) (a : ProxyBear) → IsRefreshed Fails a → IsRefreshed Fails (select_tab t a)
  unfolding select_tab
  select_tab-IsRefreshed t a h = elim (Bool-cases (is_logs t)) [
    | inl e ↦
        rw (e, select_tab)
          (SamePolls-IsRefreshed Fails (sync_refresh_tasks (record a { active_tab = t })) _
            (refl, refl, refl, refl, refl, refl, refl, refl) (front-IsRefreshed t a h))
    | inr e ↦ rw (e, select_tab) (front-IsRefreshed t a h)
  ]

  field-IsRefreshed :
      (o : Outside) (w : Draws Fails o) (f : SettingsField) (a : ProxyBear)
      → IsRefreshed Fails a
      → IsRefreshed Fails (field o f a)
  unfolding field
  field-IsRefreshed o w (tab t) a h = select_tab-IsRefreshed t a h
  field-IsRefreshed o w (log_level l) a h =
      SamePolls-IsRefreshed Fails a _ (set_log_level-SamePolls o l a) h
  field-IsRefreshed o w (autostart b) a h =
      SamePolls-IsRefreshed Fails a _ (set_autostart-SamePolls o b a) h
  field-IsRefreshed o w (auto_connect b) a h =
      SamePolls-IsRefreshed Fails a _ (set_auto_connect-SamePolls o b a) h
  field-IsRefreshed o w save a h = save_field-IsRefreshed o w false a
  field-IsRefreshed o w save_and_start a h = save_field-IsRefreshed o w true a
  field-IsRefreshed o w start a h = start_proxy-IsRefreshed o w a
  field-IsRefreshed o w stop a h = stop_proxy-IsRefreshed o w a
  field-IsRefreshed o w forget_host_key a h =
      SamePolls-IsRefreshed Fails a _ (forget-SamePolls o a) h
  field-IsRefreshed o w trust_host_key a h = unfold trust in trust_prompt-IsRefreshed o w _ a h
  field-IsRefreshed o w reject_host_key a h =
      unfold reject in
      SamePolls-IsRefreshed Fails _ _ (refl, refl, refl, refl, refl, refl, refl, refl)
        (stop_proxy-IsRefreshed o w _)
  field-IsRefreshed o w choose_key a h =
      SamePolls-IsRefreshed Fails a _ (choose_key_path-SamePolls _ a) h
  field-IsRefreshed o w open_log a h = show_result-IsRefreshed _ _ a h
  field-IsRefreshed o w (reveal_log t) a h = show_result-IsRefreshed _ _ a h
  field-IsRefreshed o w (reveal_config t) a h = show_result-IsRefreshed _ _ a h
  field-IsRefreshed o w clear_log a h = show_result-IsRefreshed _ _ a h
  field-IsRefreshed o w check_for_updates a h = h
  field-IsRefreshed o w revert a h =
      unfold revert_form in
      SamePolls-IsRefreshed Fails a _ (refl, refl, refl, refl, refl, refl, refl, refl) h
  field-IsRefreshed o w _ a h =
      SamePolls-IsRefreshed Fails a _ (refl, refl, refl, refl, refl, refl, refl, refl) h

  task_ended-IsRefreshed :
      (o : Outside) (w : Draws Fails o) (e : Option Error) (a : ProxyBear)
      → IsRefreshed Fails a
      → IsRefreshed Fails (task_ended o e a)
  unfolding task_ended
  task_ended-IsRefreshed o w e a h = elim (List-cases a.tasks) [
    | inl f ↦ rw (f, task_ended) h
    | inr (t, ts, f) ↦ rw (f, task_ended) (refreshed o w _)
  ]

  window_opened-IsRefreshed :
      (o : Outside) (w : Draws Fails o) (r : Result (Unit {0})) (a : ProxyBear)
      → IsRefreshed Fails a
      → IsRefreshed Fails (window_opened o r a)
  unfolding window_opened
  window_opened-IsRefreshed o w (ok u) a h =
      let b = refresh_stats o (record a { settings_window = true; opening = a.opening - 1 }) in
      elim (Bool-cases (is_logs b.active_tab)) [
        | inl e ↦
            rw (e, window_opened)
              (SamePolls-IsRefreshed Fails b _ (refl, refl, refl, refl, refl, refl, refl, refl)
                (refreshed o w _))
        | inr e ↦ rw (e, window_opened) (refreshed o w _)
      ]
  window_opened-IsRefreshed o w (err e) a h =
      SamePolls-IsRefreshed Fails a _ (refl, refl, refl, refl, refl, refl, refl, refl) h

  should_close-IsRefreshed :
      (o : Outside) (w : Draws Fails o) (n : ℕ) (a : ProxyBear)
      → IsRefreshed Fails (should_close o n a)
  unfolding should_close settings_closed resolve_close
  should_close-IsRefreshed o w n a = elim (Bool-cases (has_unsaved_changes o a)) [
    | inr e ↦ rw (e, should_close) (refreshed o w _)
    | inl e ↦ elim (Bool-cases (answered o n a).1) [
      | inl f ↦ rw (e, should_close) (rw (f, should_close) (refreshed o w _))
      | inr f ↦ rw (e, should_close) (rw (f, should_close) (refreshed o w _))
    ]
  ]

  step-IsRefreshed :
      (o : Outside) (w : Draws Fails o) (e : Event) (a : ProxyBear)
      → IsRefreshed Fails a
      → IsRefreshed Fails (step o e a)
  unfolding step handle_field handle_menu
  step-IsRefreshed o w (field_event f) a h =
      field-IsRefreshed o w f _
        (SamePolls-IsRefreshed Fails a _ (refl, refl, refl, refl, refl, refl, refl, refl) h)
  step-IsRefreshed o w (menu_event m) a h = refreshed o w _
  step-IsRefreshed o w (ended e) a h = task_ended-IsRefreshed o w e a h
  step-IsRefreshed o w (opened r) a h = window_opened-IsRefreshed o w r a h
  step-IsRefreshed o w (closing n) a h = should_close-IsRefreshed o w n a
  step-IsRefreshed o w (updates us) a h = refreshed o w _

  -- The system can set the icon at every event, or `Fails`.
  abbrev pub AllDraw : List (Outside × Event) → Type 0
  AllDraw [] = Unit {0}
  AllDraw ((o, e) ∷ es) = Draws Fails o × AllDraw es

  -- Any events, whatever the system answers, preserve that the background tasks fit what is seen, and,
  -- while the icon can be set, that the icon is the one for what the window shows.
  pub run-IsRefreshed :
      (es : List (Outside × Event)) (a : ProxyBear)
      → AllDraw es
      → IsRefreshed Fails a
      → IsRefreshed Fails (run es a)
  unfolding run
  run-IsRefreshed [] a w h = h
  run-IsRefreshed ((o, e) ∷ es) a (w, ws) h =
      run-IsRefreshed es (step o e a) ws (step-IsRefreshed o w e a h)
