-- ===== src/App/Bear/Samples.antt =====
-- An application whose proxy asks about a host key, and a system where everything succeeds.
use proxybear.Base.{false, none, some, ok, [], codes}
use proxybear.Net.Samples.{tagged}
use proxybear.Stats
use proxybear.Stats.{ProxyStats, snapshot}
use proxybear.Settings.Form.{from_config, general}
use proxybear.Config
use proxybear.Config.{AppConfig}
use proxybear.App.Icon.{unhappy}
use proxybear.App.Bear.{ProxyBear, Outside}

-- Everything succeeds, and the window is gone.
abbrev pub willing : Outside
willing = record {
  ips = tagged;
  home = none;
  write_config = λ c. ok tt;
  write_secrets = λ c d. ok tt;
  write_autostart = λ b. ok tt;
  reload_filter = λ l. ok tt;
  clear_log = ok tt;
  icon_made = ok tt;
  icon_set = ok tt;
  open_path = ok tt;
  chosen_key = none;
  window_alive = false;
  receiver_gone = false;
}

-- The proxy asks whether to trust a server's key.
abbrev pub asking : ProxyStats
asking = record Stats.default {
  host_key_prompt = some (record {
    server = codes "example.org:22";
    fingerprint = codes "SHA256:new";
    previous = none;
  });
}

abbrev pub home_config : AppConfig
home_config = record (Config.default (codes "bear")) { server = codes "example.org" }

abbrev pub bear : ProxyBear
bear = record {
  config = home_config;
  stored = home_config;
  stats = asking;
  proxy = record { shutdown = false; task_alive = false; start_pending = false };
  tasks = [];
  icon = unhappy;
  form = from_config tagged home_config;
  active_tab = general;
  stats_snapshot = snapshot Stats.default;
  feedback = none;
  settings_window = false;
  opening = 0;
  menu_open = false;
  stats_task = false;
  log_task = false;
  log_reads = 0;
  quit = false;
}
