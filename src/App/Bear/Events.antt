-- ===== src/App/Bear/Events.antt =====
-- src/main.rs: the events of the application, as steps in any order.
use proxybear.Base.{
  ℕ, zero, suc, ◌-◌, Bool, true, false, not, Option, none, some, List, [], ◌∷◌, ◌++◌, codes,
  if◌then◌else◌, Error, Result, ok, err, chain_text, text_eq, ◌&&◌,
}
use proxybear.Config.{AuthMethod, key, password}
use proxybear.Stats.{set_status}
use proxybear.Stats.Notify.{Update, apply_all}
use proxybear.Settings.Form.{SettingsForm, connection, from_config}
use proxybear.App.Controller.{finish}
use proxybear.App.Bear.{
  ProxyBear, Outside, is_logs, refresh_stats, start_proxy, save_settings, revert_form,
}
use proxybear.App.Bear.Handlers.{
  MenuAction, SettingsField, handle_field, handle_menu, show_error, read_log,
}

-- The proxy task ends, with the error of its run if there is one.
abbrev pub note_run : Option Error → ProxyBear → ProxyBear
note_run none a = a
note_run (some e) a = show_error (chain_text e) a

unfoldable pub task_ended : Outside → Option Error → ProxyBear → ProxyBear
task_ended o error a = elim a.tasks [
  | [] ↦ a
  | t ∷ ts ↦
      let (proxy, start_pending) = finish a.proxy in
      let b =
        note_run error
          (record a { proxy = proxy; tasks = ts; stats = set_status (codes "Stopped") a.stats }) in
      refresh_stats o (if start_pending then start_proxy o b else b)
]

-- The deferred construction of the window.
unfoldable pub window_opened : Outside → Result (Unit {0}) → ProxyBear → ProxyBear
window_opened o (ok u) a =
    let b = refresh_stats o (record a { settings_window = true; opening = a.opening - 1 }) in
    if is_logs b.active_tab then read_log b else b
window_opened o (err e) a =
    show_error (codes "failed to open settings: " ++ chain_text e)
      (record a { opening = a.opening - 1 })

unfoldable pub settings_closed : Outside → ProxyBear → ProxyBear
settings_closed o a = refresh_stats o (record a { settings_window = false })

abbrev pub auth_eq : AuthMethod → AuthMethod → Bool
auth_eq key key = true
auth_eq key password = false
auth_eq password key = false
auth_eq password password = true

-- The derived `==` of the form.
unfoldable pub form_eq : SettingsForm → SettingsForm → Bool
form_eq f g =
    text_eq f.server g.server
    && text_eq f.username g.username
    && text_eq f.port g.port
    && text_eq f.pool_size g.pool_size
    && auth_eq f.auth_method g.auth_method
    && text_eq f.key_path g.key_path
    && text_eq f.key_password g.key_password
    && text_eq f.ssh_password g.ssh_password
    && text_eq f.local_ip g.local_ip
    && text_eq f.local_port g.local_port

unfoldable pub has_unsaved_changes : Outside → ProxyBear → Bool
unfolding form_eq
has_unsaved_changes o a = not (form_eq a.form (from_config o.ips a.config))

-- 0 saves, 1 discards, anything else cancels.
abbrev pub answered : Outside → ℕ → ProxyBear → ProxyBear × Bool
answered o zero a =
    let (b, r) = save_settings o a in
    elim r [
      | ok u ↦ (b, true)
      | err e ↦ (record (show_error (chain_text e) b) { active_tab = connection }, false)
    ]
answered o (suc zero) a = (revert_form o a, true)
answered o (suc (suc n)) a = (a, false)

unfoldable pub resolve_close : Outside → ℕ → ProxyBear → ProxyBear × Bool
resolve_close o answer a = let (b, close) = answered o answer a in (refresh_stats o b, close)

-- The window is asked to close: it does at once if nothing is unsaved, and else by the answer.
unfoldable pub should_close : Outside → ℕ → ProxyBear → ProxyBear
should_close o answer a =
    if not (has_unsaved_changes o a)
    then settings_closed o a
    else let (b, close) = resolve_close o answer a in if close then settings_closed o b else b

-- What may happen to the application; `updates` are what the proxy's tasks do
-- to the shared figures, of which the application is told.
pub data Event : Type 0 where
  field_event : SettingsField → Event
  menu_event : MenuAction → Event
  ended : Option Error → Event
  opened : Result (Unit {0}) → Event
  closing : ℕ → Event
  updates : List Update → Event

unfoldable pub step : Outside → Event → ProxyBear → ProxyBear
step o (field_event f) a = handle_field o f a
step o (menu_event action) a = handle_menu o action a
step o (ended error) a = task_ended o error a
step o (opened r) a = window_opened o r a
step o (closing answer) a = should_close o answer a
step o (updates us) a = refresh_stats o (record a { stats = apply_all us a.stats })

unfoldable pub run : List (Outside × Event) → ProxyBear → ProxyBear
run [] a = a
run ((o, e) ∷ es) a = run es (step o e a)
