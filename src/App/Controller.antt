-- ===== src/App/Controller.antt =====
-- src/app/proxy_control.rs: starts and stops the proxy task. The tokio runtime is left out; the
-- task itself is known by the settings that it is spawned with.
pub mod Tasks
use proxybear.Base.{
  ℕ, Bool, true, false, not, ◌&&◌, Option, none, some, Text, codes, if◌then◌else◌, Result, ok, err,
}
use proxybear.Config.{AppConfig, RuntimeConfig, runtime_config}
use proxybear.Stats.{ProxyStats, set_status, clear_error}

-- `shutdown` says whether the sender is present.
pub record ProxyController : Type 0 where
  pub shutdown : Bool
  pub task_alive : Bool
  pub start_pending : Bool

unfoldable pub new : ProxyController
new = record { shutdown = false; task_alive = false; start_pending = false }

unfoldable pub is_running : ProxyController → Bool
is_running p = p.shutdown

unfoldable pub finish : ProxyController → ProxyController × Bool
finish p = (record { shutdown = false; task_alive = false; start_pending = false }, p.start_pending)

-- The new state, and the task that was spawned, if any.
unfoldable pub start :
    Option Text
    → AppConfig
    → ProxyController
    → ProxyStats
    → ProxyController × ProxyStats × Result (Option RuntimeConfig)
unfolding is_running
start home config p stats =
    if is_running p then (p, stats, ok none) else elim (runtime_config home config) [
      | err e ↦ (p, stats, err e)
      | ok runtime ↦ if p.task_alive then (record p { start_pending = true }, stats, ok none) else (
        record p { shutdown = true; task_alive = true },
        clear_error (set_status (codes "Starting") stats),
        ok (some runtime),
      )
    ]

-- `gone` says whether the task has dropped the receiver, so that sending fails.
unfoldable pub stop : Bool → ProxyController → ProxyStats → ProxyController × ProxyStats
stop gone p stats =
    if p.shutdown
    then (
      record p { shutdown = false; start_pending = false },
      if gone
          then set_status (codes "Stopped") (set_status (codes "Stopping...") stats)
          else set_status (codes "Stopping...") stats,
    )
    else (
      record p { start_pending = false },
      if p.task_alive then stats else set_status (codes "Stopped") stats,
    )
