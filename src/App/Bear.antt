-- ===== src/App/Bear.antt =====
-- src/main.rs: the application's state, and the routines that its handlers share. What the operating
-- system answers is the argument `Outside`; the redraws of the user interface are left out.
pub mod Handlers
pub mod Events
pub mod Background
pub mod Saves
pub mod Steady
pub mod Polling
pub mod Writes
pub mod Trust
pub mod Closing
pub mod Restart
pub mod Samples
pub mod Core
pub mod Kept
pub mod Meanwhile
pub mod Refines
pub mod Ranges
mod Tests
use proxybear.Base.{
  ℕ, zero, suc, Bool, true, false, not, ◌&&◌, ◌||◌, Option, none, some, List, ◌∷◌, Text, codes,
  if◌then◌else◌, Result, ok, err, chain_text,
}
use proxybear.Net.{IpText}
use proxybear.Config.{AppConfig, RuntimeConfig, LogLevel}
use proxybear.Stats.{ProxyStats, StatsSnapshot, snapshot, set_error, clear_error}
use proxybear.Stats.Snapshots.{snapshot_eq}
use proxybear.Settings.Form.{
  SettingsForm, SettingsTab, general, connection, logs, from_config, apply_to_config,
}
use proxybear.App.Icon.{TrayIconState, happy, unhappy, set_icon_state}
use proxybear.App.Controller.{ProxyController, is_running, start, stop}
use proxybear.App.Controller.Tasks.{spawned}

-- `presentation::icon_state`.
unfoldable pub icon_state : Bool → Bool → TrayIconState
icon_state running clean = if running && clean then happy else unhappy

-- `stored` is what the file was last read as or written with, `tasks` the proxy tasks that have not ended, and
-- `opening` counts the windows whose construction is deferred. `log_reads` counts the calls of
-- `log_tail.refresh`; a background task is there or not.
pub record ProxyBear : Type 0 where
  pub config : AppConfig
  pub stored : AppConfig
  pub stats : ProxyStats
  pub proxy : ProxyController
  pub tasks : List RuntimeConfig
  pub icon : TrayIconState
  pub form : SettingsForm
  pub active_tab : SettingsTab
  pub stats_snapshot : StatsSnapshot
  pub feedback : Option Text
  pub settings_window : Bool
  pub opening : ℕ
  pub menu_open : Bool
  pub stats_task : Bool
  pub log_task : Bool
  pub log_reads : ℕ
  pub quit : Bool

-- What the system answers while one event is handled.
pub record Outside : Type 0 where
  pub ips : IpText
  pub home : Option Text
  pub write_config : AppConfig → Result (Unit {0})
  pub write_secrets : AppConfig → AppConfig → Result (Unit {0})
  pub write_autostart : Bool → Result (Unit {0})
  pub reload_filter : LogLevel → Result (Unit {0})
  pub clear_log : Result (Unit {0})
  pub icon_made : Result (Unit {0})
  pub icon_set : Result (Unit {0})
  pub open_path : Result (Unit {0})
  pub chosen_key : Option Text
  pub window_alive : Bool
  pub receiver_gone : Bool

abbrev pub is_logs : SettingsTab → Bool
is_logs general = false
is_logs connection = false
is_logs logs = true

abbrev pub is_some {ℓ} : {A : Type ℓ} → Option A → Bool
is_some none = false
is_some (some a) = true

-- Whether the log is followed, and whether the figures are read every few seconds.
abbrev pub wants_log : ProxyBear → Bool
wants_log a = a.settings_window && is_logs a.active_tab

unfoldable pub wants_stats : ProxyBear → Bool
unfolding is_running
wants_stats a = is_running a.proxy && (a.settings_window || a.menu_open)

-- A task that should run is kept or spawned; one that should not is dropped.
unfoldable pub sync_refresh_tasks : ProxyBear → ProxyBear
unfolding wants_stats
sync_refresh_tasks a = record a {
  log_task = if not (wants_log a) then false else if a.log_task then true else true;
  stats_task = if not (wants_stats a) then false else if a.stats_task then true else true;
}

abbrev pub clean : StatsSnapshot → Bool
clean stats = not (is_some stats.last_error) && stats.ssh_connected

-- Where the icon cannot be set, it stays.
unfoldable pub update_icon_for : Outside → StatsSnapshot → Bool → ProxyBear → ProxyBear
unfolding icon_state set_icon_state
update_icon_for o stats running a = record a {
  icon = (set_icon_state o.icon_made o.icon_set (icon_state running (clean stats)) a.icon).0;
}

-- The part of `refresh_stats` before it may open the window.
unfoldable pub shown : Outside → ProxyBear → ProxyBear
unfolding sync_refresh_tasks update_icon_for
shown o a =
    let stats = snapshot a.stats in
    let b = update_icon_for o stats (is_running a.proxy) a in
    sync_refresh_tasks (record b {
      stats_snapshot = if snapshot_eq stats a.stats_snapshot then a.stats_snapshot else stats;
    })

unfoldable pub host_key_prompted : ProxyBear → Bool
host_key_prompted a =
    is_some (snapshot a.stats).host_key_prompt && not (is_some a.stats_snapshot.host_key_prompt)

-- `open_settings`, up to the deferred construction; `refresh` is `refresh_stats`.
abbrev pub open_with : Outside → (ProxyBear → ProxyBear) → ProxyBear → ProxyBear
open_with o refresh a =
    if a.settings_window && o.window_alive
    then a
    else let b = refresh (record a { settings_window = false }) in
      record b { opening = suc b.opening }

-- `refresh_stats` and `open_settings` call each other, here at most as often as the number says.
unfoldable pub refresh : ℕ → Outside → ProxyBear → ProxyBear
refresh zero o a = shown o a
refresh (suc n) o a =
    let next = refresh n o in
    if host_key_prompted a
    then open_with o next (record (shown o a) { active_tab = general })
    else shown o a

unfoldable pub refresh_stats : Outside → ProxyBear → ProxyBear
refresh_stats o a = refresh 1 o a

unfoldable pub open_settings : Outside → ProxyBear → ProxyBear
open_settings o a = open_with o (refresh_stats o) a

abbrev pub note_error {ℓ} : {A : Type ℓ} → Result A → ProxyStats → ProxyStats
note_error (ok a) stats = stats
note_error (err e) stats = set_error (chain_text e) stats

unfoldable pub start_proxy : Outside → ProxyBear → ProxyBear
start_proxy o a =
    let r = start o.home a.config a.proxy a.stats in
    refresh_stats o
      (record a { proxy = r.0; stats = note_error r.2 r.1; tasks = spawned r.2 a.tasks })

unfoldable pub stop_proxy : Outside → ProxyBear → ProxyBear
stop_proxy o a =
    let r = stop o.receiver_gone a.proxy a.stats in
    refresh_stats o (record a { proxy = r.0; stats = r.1 })

-- `save_config`: the file is replaced as a whole or not at all.
unfoldable pub save_config_state : Outside → AppConfig → ProxyBear → ProxyBear × Result (Unit {0})
save_config_state o config a = elim (o.write_config config) [
  | ok u ↦ (record a { stored = config; config = config; stats = clear_error a.stats }, ok tt)
  | err e ↦ (a, err (codes "failed to save config" ∷ e))
]

unfoldable pub save_settings : Outside → ProxyBear → ProxyBear × Result (Unit {0})
save_settings o a =
    let r = apply_to_config o.ips a.form a.config in
    elim r.1 [
      | err e ↦ (a, err e)
      | ok u ↦ elim (o.write_secrets a.config r.0) [
        | err e ↦ (a, err e)
        | ok v ↦ save_config_state o r.0 a
      ]
    ]

-- An error of a step is shown.
abbrev pub or_error : ProxyBear × Result (Unit {0}) → ProxyBear
or_error (a, r) = record a { stats = note_error r a.stats }

unfoldable pub set_autostart : Outside → Bool → ProxyBear → ProxyBear
set_autostart o enabled a = elim (o.write_autostart enabled) [
  | err e ↦ or_error (a, err e)
  | ok u ↦ or_error (save_config_state o (record a.config { autostart = enabled }) a)
]

unfoldable pub set_auto_connect : Outside → Bool → ProxyBear → ProxyBear
set_auto_connect o enabled a =
    or_error (save_config_state o (record a.config { auto_connect = enabled }) a)

unfoldable pub revert_form : Outside → ProxyBear → ProxyBear
revert_form o a = record a { form = from_config o.ips a.config }
