-- ===== src/App/Bear/Refines.antt =====
-- What the events of src/main.rs do to the proxy's tasks, by the calls of src/app/proxy_control.rs.
use proxybear.Base.{
  ℕ, ◌-◌, zero, suc, inl, inr, true, false, Bool-cases, Option, none, some, Text, Result,
  Result-cases, ok, err, List, [], ◌∷◌,
}
use proxybear.Stats.{ProxyStats}
use proxybear.App.Controller.Tasks
use proxybear.App.Controller.Tasks.{Call, IsValid, step-IsValid, AtMostOne}
use proxybear.App.Bear.{ProxyBear, Outside, is_logs, refresh_stats, revert_form, save_settings}
use proxybear.App.Bear.Handlers.{
  SettingsField, tab, log_level, autostart, auto_connect, save, save_and_start, revert, start, stop,
  forget_host_key, trust_host_key, reject_host_key, choose_key, open_log, reveal_log, reveal_config,
  clear_log, field, handle_field, choose_key_path,
}
use proxybear.App.Bear.Events.{
  Event, field_event, menu_event, ended, opened, closing, updates, step, run, window_opened,
  settings_closed, should_close, resolve_close, answered, has_unsaved_changes,
}
use proxybear.App.Bear.Core.{
  Core, core, called, Reaches, here, calls, Reaches-trans, refresh_stats-Keeps, start_proxy-Keeps,
  stop_proxy-Keeps,
}
use proxybear.App.Bear.Meanwhile.{handle_menu-Keeps, task_ended-Keeps}
use proxybear.App.Bear.Kept.{
  save_settings-Keeps, set_autostart-Keeps, set_auto_connect-Keeps, set_log_level-Keeps,
  save_field-Keeps, forget-Keeps, trust-Keeps, reject-Keeps, select_tab-Keeps, show_result-Keeps,
}

abbrev Moves : ProxyBear → ProxyBear → Type 0
Moves a b = Reaches (core a) (core b)

choose-Moves : (p : Option Text) (a : ProxyBear) → Moves a (choose_key_path p a)
unfolding choose_key_path
choose-Moves none a = here _
choose-Moves (some p) a = here _

field-Moves : (o : Outside) (f : SettingsField) (a : ProxyBear) → Moves a (field o f a)
unfolding field
field-Moves o (tab t) a = (select_tab-Keeps t a).reaches
field-Moves o (log_level l) a = (set_log_level-Keeps o l a).reaches
field-Moves o (autostart b) a = (set_autostart-Keeps o b a).reaches
field-Moves o (auto_connect b) a = (set_auto_connect-Keeps o b a).reaches
field-Moves o save a = (save_field-Keeps o false a).reaches
field-Moves o save_and_start a = (save_field-Keeps o true a).reaches
field-Moves o start a = (start_proxy-Keeps o a).reaches
field-Moves o stop a = (stop_proxy-Keeps o a).reaches
field-Moves o forget_host_key a = (forget-Keeps o a).reaches
field-Moves o trust_host_key a = (trust-Keeps o a).reaches
field-Moves o reject_host_key a = (reject-Keeps o a).reaches
field-Moves o choose_key a = choose-Moves o.chosen_key a
field-Moves o open_log a = (show_result-Keeps _ _ a).reaches
field-Moves o (reveal_log p) a = (show_result-Keeps _ _ a).reaches
field-Moves o (reveal_config p) a = (show_result-Keeps _ _ a).reaches
field-Moves o clear_log a = (show_result-Keeps _ _ a).reaches
field-Moves o revert a = unfold revert_form in here _
field-Moves o _ a = here _

refreshed : (o : Outside) (a b : ProxyBear) → Moves a b → Moves a (refresh_stats o b)
refreshed o a b h = Reaches-trans _ _ _ h (refresh_stats-Keeps o b).reaches

opened-Moves : (o : Outside) (r : Result (Unit {0})) (a : ProxyBear) → Moves a (window_opened o r a)
unfolding window_opened
opened-Moves o (err e) a = here _
opened-Moves o (ok u) a =
    let b : ProxyBear = record a { settings_window = true; opening = a.opening - 1 } in
    let k : Moves b (refresh_stats o b) = (refresh_stats-Keeps o b).reaches in
    elim (Bool-cases (is_logs (refresh_stats o b).active_tab)) [
      | inl e ↦ rw (e, window_opened) k
      | inr e ↦ rw (e, window_opened) k
    ]

closed-Moves : (o : Outside) (a : ProxyBear) → Moves a (settings_closed o a)
unfolding settings_closed
closed-Moves o a = (refresh_stats-Keeps o (record a { settings_window = false })).reaches

answered-Moves : (o : Outside) (n : ℕ) (a : ProxyBear) → Moves a (answered o n a).0
answered-Moves o zero a = elim (Result-cases (save_settings o a).1) [
  | inl (u, e) ↦ rw (e, answered) (save_settings-Keeps o a).reaches
  | inr (u, e) ↦ rw (e, answered) (save_settings-Keeps o a).reaches
]
answered-Moves o (suc zero) a = unfold revert_form in here _
answered-Moves o (suc (suc n)) a = here _

closing-Moves : (o : Outside) (n : ℕ) (a : ProxyBear) → Moves a (should_close o n a)
unfolding should_close resolve_close
closing-Moves o n a =
    let b = refresh_stats o (answered o n a).0 in
    let k : Moves a b = refreshed o a (answered o n a).0 (answered-Moves o n a) in
    elim (Bool-cases (has_unsaved_changes o a)) [
      | inr e ↦ rw (e, should_close) (closed-Moves o a)
      | inl e ↦ elim (Bool-cases (answered o n a).1) [
        | inl f ↦ rw (e, f, should_close) (Reaches-trans _ _ _ k (closed-Moves o b))
        | inr f ↦ rw (e, f, should_close) k
      ]
    ]

step-Moves : (o : Outside) (e : Event) (a : ProxyBear) → Moves a (step o e a)
unfolding step handle_field
step-Moves o (field_event f) a = field-Moves o f (record a { feedback = none })
step-Moves o (menu_event m) a = (handle_menu-Keeps o m a).reaches
step-Moves o (ended e) a = (task_ended-Keeps o e a).reaches
step-Moves o (opened r) a = opened-Moves o r a
step-Moves o (closing n) a = closing-Moves o n a
step-Moves o (updates us) a = (refresh_stats-Keeps o _).reaches

run-Moves : (es : List (Outside × Event)) (a : ProxyBear) → Moves a (run es a)
unfolding run
run-Moves [] a = here _
run-Moves ((o, e) ∷ es) a = Reaches-trans _ _ _ (step-Moves o e a) (run-Moves es (step o e a))

-- At most one task runs, and the controller knows whether one does.
abbrev pub IsValidCore : Core → Type 0
IsValidCore (p, ts) =
    (stats : ProxyStats) → IsValid (record { controller = p; stats = stats; tasks = ts })

called-IsValid :
    (home : Option Text) (stats : ProxyStats) (c : Call) (x : Core)
    → IsValidCore x
    → IsValidCore (called home stats c x)
unfolding called
called-IsValid home stats c (p, ts) h later =
    let s = Tasks.step home (record { controller = p; stats = stats; tasks = ts }) c in
    let v = step-IsValid home (record { controller = p; stats = stats; tasks = ts }) c (h stats) in
    record {
      one_task = v.one_task;
      running_alive = v.running_alive;
      pending_stopping = v.pending_stopping;
    }

pub Reaches-IsValid : (x y : Core) → Reaches x y → IsValidCore x → IsValidCore y
Reaches-IsValid x y (here z) h = h
Reaches-IsValid x y (calls home stats c w z r) h =
    Reaches-IsValid _ y r (called-IsValid home stats c x h)

-- Any events of the application, whatever the system answers, do to the controller and the proxy tasks
-- what some calls of the controller do, so that at most one proxy task ever runs, if at most one does
-- in the beginning.
pub run-Reaches :
    (es : List (Outside × Event)) (a : ProxyBear)
    → IsValidCore (core a)
    → Reaches (core a) (core (run es a)) × IsValidCore (core (run es a))
run-Reaches es a h = (run-Moves es a, Reaches-IsValid _ _ (run-Moves es a) h)
