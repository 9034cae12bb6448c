-- ===== src/App/Bear/Meanwhile.antt =====
-- The menu's handler of src/main.rs and the end of a task leave the form alone; the calls that they make.
use proxybear.Base.{
  List, [], ◌∷◌, ◌≡◌, ap, refl, inl, inr, Bool, true, false, Bool-cases, Option, none, some, codes,
  Error, if◌then◌else◌, not, ◌&&◌, List-cases,
}
use proxybear.Config.{RuntimeConfig}
use proxybear.Stats.{set_status}
use proxybear.App.Controller.{is_running, finish}
use proxybear.App.Controller.Tasks
use proxybear.App.Controller.Tasks.{Call, starts, stops, ends, spawned}
use proxybear.App.Bear.{ProxyBear, Outside, refresh_stats, open_settings, start_proxy}
use proxybear.App.Bear.Handlers.{
  MenuAction, menu_opened, menu_closed, start_stop, settings, toggle_autostart, toggle_auto_connect,
  quit, menu, handle_menu, check_for_updates,
}
use proxybear.App.Bear.Events.{note_run, task_ended}
use proxybear.App.Bear.Core.{
  core, called, here, calls, Keeps, apart_from, later, refresh_stats-Keeps, start_proxy-Keeps,
  stop_proxy-Keeps,
}
use proxybear.App.Bear.Kept.{set_auto_connect-Keeps, set_autostart-Keeps}

open_settings-Keeps : (o : Outside) (a : ProxyBear) → Keeps a (open_settings o a)
unfolding open_settings
open_settings-Keeps o a = elim (Bool-cases (a.settings_window && o.window_alive)) [
  | inl e ↦ rw (e, open_settings) (record { form = refl; reaches = here _ })
  | inr e ↦
      let b : ProxyBear = record a { settings_window = false } in
      rw (e, open_settings)
        (apart_from refl refl refl
          (later {b = b} (record { form = refl; reaches = here _ }) (refresh_stats-Keeps o b)))
]

menu-Keeps : (o : Outside) (m : MenuAction) (a : ProxyBear) → Keeps a (menu o m a)
unfolding menu
menu-Keeps o menu_opened a = (record { form = refl; reaches = here _ })
menu-Keeps o menu_closed a = (record { form = refl; reaches = here _ })
menu-Keeps o start_stop a = elim (Bool-cases (is_running a.proxy)) [
  | inl e ↦ rw (e, menu) (stop_proxy-Keeps o a)
  | inr e ↦ rw (e, menu) (start_proxy-Keeps o a)
]
menu-Keeps o settings a = open_settings-Keeps o a
menu-Keeps o toggle_autostart a = set_autostart-Keeps o (not a.config.autostart) a
menu-Keeps o toggle_auto_connect a = set_auto_connect-Keeps o (not a.config.auto_connect) a
menu-Keeps o check_for_updates a = (record { form = refl; reaches = here _ })
menu-Keeps o quit a = apart_from refl refl refl (stop_proxy-Keeps o a)

pub handle_menu-Keeps : (o : Outside) (m : MenuAction) (a : ProxyBear) → Keeps a (handle_menu o m a)
unfolding handle_menu
handle_menu-Keeps o m a = later (menu-Keeps o m a) (refresh_stats-Keeps o (menu o m a))

-- What follows the end of a task.
restarted-Keeps :
    (o : Outside) (b : ProxyBear) (again : Bool)
    → Keeps b (refresh_stats o (if again then start_proxy o b else b))
restarted-Keeps o b true = later (start_proxy-Keeps o b) (refresh_stats-Keeps o _)
restarted-Keeps o b false = refresh_stats-Keeps o b

task_ended-nil :
    (o : Outside) (e : Option Error) (a : ProxyBear) → a.tasks ≡ [] → task_ended o e a ≡ a
unfolding task_ended
task_ended-nil o e a n =
    let with_tasks : List RuntimeConfig → ProxyBear = λ ts. record a { tasks = ts } in
    rw (n, task_ended) (ap with_tasks n)

-- The controller is told of a task that ends.
finished : Option Error → ProxyBear → List RuntimeConfig → ProxyBear
finished e a ts = note_run e (record a {
  proxy = (finish a.proxy).0;
  tasks = ts;
  stats = set_status (codes "Stopped") a.stats;
})

task_ended-cons :
    (o : Outside) (e : Option Error) (a : ProxyBear) (t : RuntimeConfig) (ts : List RuntimeConfig)
    → a.tasks ≡ t ∷ ts
    → let b = finished e a ts in
      task_ended o e a ≡ refresh_stats o (if (finish a.proxy).1 then start_proxy o b else b)
unfolding task_ended finished
task_ended-cons o e a t ts c = rw (c, task_ended) refl

note_run-Keeps : (e : Option Error) (a : ProxyBear) → Keeps a (note_run e a)
note_run-Keeps none a = record { form = refl; reaches = here _ }
note_run-Keeps (some e) a = record { form = refl; reaches = here _ }

finished-Keeps :
    (e : Option Error) (a : ProxyBear) (t : RuntimeConfig) (ts : List RuntimeConfig)
    → a.tasks ≡ t ∷ ts
    → Keeps a (finished e a ts)
unfolding finished
finished-Keeps e a t ts c =
    let b : ProxyBear = record a {
      proxy = (finish a.proxy).0;
      tasks = ts;
      stats = set_status (codes "Stopped") a.stats;
    } in
    let told : called none a.stats ends (core a) ≡ core b =
      unfold called Tasks.end_task in rw (c, called) refl in
    later {b = b}
      (record {
        form = refl;
        reaches = calls none a.stats ends (core a) (core b) (rw told (here (core b)));
      })
      (note_run-Keeps e b)

pub task_ended-Keeps : (o : Outside) (e : Option Error) (a : ProxyBear) → Keeps a (task_ended o e a)
task_ended-Keeps o e a = elim (List-cases a.tasks) [
  | inl n ↦ rw (task_ended-nil o e a n) (record { form = refl; reaches = here _ })
  | inr (t, ts, c) ↦
      rw (task_ended-cons o e a t ts c)
        (later (finished-Keeps e a t ts c) (restarted-Keeps o (finished e a ts) (finish a.proxy).1))
]
