-- ===== src/Config/Runs.antt =====
-- Settings that a run may start with, and a system on which everything succeeds.
use proxybear.Base.{false, none, [], codes, ok}
use proxybear.Net.{v4}
use proxybear.Config
use proxybear.Config.{AppConfig, password}
use proxybear.Config.Keychain.{Answers}
use proxybear.Config.Store.{Store, Disk}

abbrev pub before : AppConfig
before = record {
  server = codes "example.org";
  username = codes "bear";
  port = 22;
  pool_size = 3;
  auth_method = password;
  key_path = [];
  key_password = [];
  ssh_password = [];
  local_addr = record { ip = v4 127 0 0 1; port = 1080 };
  autostart = false;
  auto_connect = false;
  log_level = Config.error;
  host_fingerprint = none;
}

abbrev pub calm : Disk
calm = record {
  read_fails = none;
  directory = ok tt;
  temporary = ok tt;
  written = ok tt;
  persisted = ok tt;
}

abbrev pub unlocked : Answers
unlocked = record {
  read_fails = λ n. none;
  write_fails = λ n. none;
  utf8_error = λ bytes. codes "invalid";
}

abbrev pub first_run : Store
first_run = record { file = none; keychain = record { password = none; phrase = none } }
