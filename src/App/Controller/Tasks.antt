-- ===== src/App/Controller/Tasks.antt =====
-- How many proxy tasks src/app/proxy_control.rs lets run, over any history of its calls.
use proxybear.Base.{
  ◌≡◌, Bool, true, false, Option, none, some, List, [], ◌∷◌, Text, Result, ok, err, arith,
}
use proxybear.Config.{AppConfig, RuntimeConfig, ready_config}
use proxybear.Config.Ready.{IsReady, runtime_config-ok}
use proxybear.Stats.{ProxyStats}
use proxybear.App.Controller.{ProxyController, is_running, finish, start, stop}

-- The controller, the shared figures, and the tasks that have been spawned and have not ended.
pub record System : Type 0 where
  pub controller : ProxyController
  pub stats : ProxyStats
  pub tasks : List RuntimeConfig

-- What may happen: a call with the settings of the moment, a call of `stop`, the end of a task.
pub data Call : Type 0 where
  starts : AppConfig → Call
  stops : Bool → Call
  ends : Call

abbrev pub spawned : Result (Option RuntimeConfig) → List RuntimeConfig → List RuntimeConfig
spawned (ok (some runtime)) tasks = runtime ∷ tasks
spawned (ok none) tasks = tasks
spawned (err e) tasks = tasks

-- A task can end only where one runs; the controller is then told by `finish`.
unfoldable pub end_task : System → List RuntimeConfig → System
end_task s [] = s
end_task s (t ∷ ts) = record s { controller = (finish s.controller).0; tasks = ts }

unfoldable pub step : Option Text → System → Call → System
unfolding end_task
step home s (starts config) =
    let r = start home config s.controller s.stats in
    record { controller = r.0; stats = r.1; tasks = spawned r.2 s.tasks }
step home s (stops gone) =
    let r = stop gone s.controller s.stats in
    record { controller = r.0; stats = r.1; tasks = s.tasks }
step home s ends = end_task s s.tasks

unfoldable pub run : Option Text → System → List Call → System
run home s [] = s
run home s (c ∷ cs) = run home (step home s c) cs

abbrev pub AtMostOne : List RuntimeConfig → Bool → Type 0
AtMostOne [] alive = alive ≡ false
AtMostOne (t ∷ []) alive = alive ≡ true
AtMostOne (t ∷ u ∷ ts) alive = ⊥

pub record IsValid (s : System) : Type 0 where
  pub one_task : AtMostOne s.tasks s.controller.task_alive
  pub running_alive : s.controller.shutdown ≡ true → s.controller.task_alive ≡ true
  pub pending_stopping :
      s.controller.start_pending ≡ true
      → (s.controller.task_alive ≡ true) × (s.controller.shutdown ≡ false)

pub step-IsValid :
    (home : Option Text) (s : System) (c : Call) → IsValid s → IsValid (step home s c)
unfolding step start stop finish
step-IsValid home s (starts config) v = ground arith
step-IsValid home s (stops gone) v = ground arith
step-IsValid home s ends v = ground arith

-- Any order of calls preserves that at most one proxy task runs, that `task_alive` says whether one
-- does, that a shutdown handle exists only for a live task, and that a start is pending only while the
-- old task is stopping.
pub run-IsValid :
    (home : Option Text) (s : System) (cs : List Call) → IsValid s → IsValid (run home s cs)
unfolding run
run-IsValid home s [] v = v
run-IsValid home s (c ∷ cs) v = run-IsValid home (step home s c) cs (step-IsValid home s c v)

-- For a running proxy and settings that a run may start with: stopping it and starting it again spawns
-- nothing yet and does not count as running; the end of the old task asks for the new one, and the start
-- that follows spawns it with those settings.
pub stop-start-finish :
    (home : Option Text) (config : AppConfig) (gone : Bool) (p : ProxyController)
    (stats : ProxyStats)
    → p.shutdown ≡ true
    → p.task_alive ≡ true
    → IsReady config
    → let stopped = stop gone p stats in
      let again = start home config stopped.0 stopped.1 in
      (again.2 ≡ ok none)
      × (is_running again.0 ≡ false)
      × ((finish again.0).1 ≡ true)
      × ((start home config (finish again.0).0 again.1).2 ≡ ok (some (ready_config home config)))
unfolding stop start finish is_running
stop-start-finish home config gone p stats r a h =
    ground (arith, (runtime_config-ok home config).1 h)

-- A stop takes back a start that waits.
pub stop_cancels :
    (gone : Bool) (p : ProxyController) (stats : ProxyStats)
    → ((finish (stop gone p stats).0).1 ≡ false) × (is_running (stop gone p stats).0 ≡ false)
unfolding stop finish is_running
stop_cancels gone p stats = ground arith
