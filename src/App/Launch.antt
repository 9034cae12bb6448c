-- ===== src/App/Launch.antt =====
-- src/main.rs: how the application is made, what it does first, and what it does last. What the
-- libraries answer when they are set up is the argument `Boot`.
pub mod Sound
pub mod Connects
pub mod Again
mod Tests
use proxybear.Base.{
  ℕ, Bool, true, false, Option, none, some, [], Text, codes, if◌then◌else◌, Result, ok, err,
  context, chain_text, ◌>>=◌, ◌>>◌,
}
use proxybear.Net.{IpText}
use proxybear.Config.{AppConfig, LogLevel}
use proxybear.Config.Keychain.{Answers}
use proxybear.Config.Store.{Toml, Disk, Store, load_config, load_secrets}
use proxybear.Stats
use proxybear.Stats.{ProxyStats, snapshot, set_status}
use proxybear.Settings.Form.{from_config, general}
use proxybear.App.Controller
use proxybear.App.Icon.{unhappy}
use proxybear.App.Bear.{ProxyBear, Outside, note_error, refresh_stats, start_proxy, stop_proxy}

-- What is answered: the directories of the user and their name, whether the application starts with
-- the session, and whether the log, the runtime of the proxy's tasks and the menu can be made.
pub record Boot : Type 0 where
  pub ips : IpText
  pub paths : Result (Unit {0})
  pub config_path : Text
  pub user : Text
  pub enabled : Bool
  pub logging : LogLevel → Result (Unit {0})
  pub runtime : Result (Unit {0})
  pub tray : Bool → Result (Unit {0})

-- The fields that `ProxyBear::new` fills in; the icon is the one that the menu is made with.
unfoldable pub made : IpText → AppConfig → ProxyStats → ProxyBear
unfolding Controller.new Stats.default snapshot
made ips config stats = record {
  config = config;
  stored = config;
  stats = stats;
  proxy = Controller.new;
  tasks = [];
  icon = unhappy;
  form = from_config ips config;
  active_tab = general;
  stats_snapshot = snapshot Stats.default;
  feedback = none;
  settings_window = false;
  opening = 0;
  menu_open = false;
  stats_task = false;
  log_task = false;
  log_reads = 0;
  quit = false;
}

-- The settings, once the log is set up for them.
unfoldable pub settings : Toml → Disk → Boot → Store → Result AppConfig
settings t d b s = do
  context (codes "app paths") b.paths
  c ← context (codes "load config") (load_config t d b.config_path b.user b.enabled s.file)
  context (codes "initialize logging") (b.logging c.log_level)
  ok c

-- The first figures: the proxy is stopped, and an error says that secrets could not be read.
abbrev pub first_stats : Result (Unit {0}) → ProxyStats
first_stats r = note_error r (set_status (codes "Stopped") Stats.default)

-- `ProxyBear::new`, after the settings are loaded.
unfoldable pub made_with : Boot → (AppConfig × Store) × Result (Unit {0}) → Store × Result ProxyBear
unfolding made
made_with b ((c, s), r) = (
  s,
  context (codes "create proxy controller") b.runtime
      >> (context (codes "tray menu") (b.tray c.auto_connect) >> ok (made b.ips c (first_stats r))),
)

unfoldable pub new : Toml → Disk → Answers → Boot → Store → Store × Result ProxyBear
unfolding made_with settings
new t d a b s = elim (settings t d b s) [
  | err e ↦ (s, err e)
  | ok c ↦ made_with b (load_secrets t d a c s)
]

-- `listen`: the subscriptions are the events of `App.Bear.Events`.
unfoldable pub listen : Outside → ProxyBear → ProxyBear
listen o a = let b = refresh_stats o a in if b.config.auto_connect then start_proxy o b else b

-- `main`: the application, or the text that the user is shown before it ends.
pub data Started : Type 0 where
  running : ProxyBear → Started
  failed : Text → Started

unfoldable pub main : Toml → Disk → Answers → Boot → Outside → Store → Store × Started
unfolding new
main t d a b o s =
    let (s', r) = new t d a b s in
    (s', elim r [ ok bear ↦ running (listen o bear) | err e ↦ failed (chain_text e) ])

-- `on_app_quit`.
unfoldable pub quit : Outside → ProxyBear → ProxyBear
quit o a = stop_proxy o a
