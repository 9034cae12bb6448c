-- ===== src/Settings/Tests.antt =====
-- Runs of the settings form and of the controller that starts the proxy with its settings.
use proxybear.Base.{◌⊎◌, ◌≢◌, ◌≡◌, refl, false, none, some, [], codes, ok, arith}
use proxybear.Base.Trim.{trim, trim_start, trim_end, is_whitespace}
use proxybear.Net.Samples
use proxybear.Base.Decimal.{to_decimal, digits, parse_uint, parse_digits}
use proxybear.Net.{v4}
use proxybear.Net.Samples.{tagged}
use proxybear.Config.{AppConfig, RuntimeConfig, key, default, ready_config, runtime_config}
use proxybear.Config
use proxybear.Settings.Form.{
  SettingsForm, from_config, apply_to_config, save_error, parse_port, parse_pool_size,
  parse_local_addr, in_pool_range,
}
use proxybear.Settings.Form.Saving.{apply-host_fingerprint, apply-save_error}
use proxybear.Settings.Form.Again.{apply-again}
use proxybear.Settings.Form.RoundTrip.{IsCanonical, apply-from_config}

-- The settings of a first start, once a server and a key are chosen.
abbrev pub home_config : AppConfig
home_config = record {
  server = codes "example.org";
  username = codes "bear";
  port = 22;
  pool_size = 3;
  auth_method = key;
  key_path = codes "~/.ssh/id";
  key_password = [];
  ssh_password = [];
  local_addr = record { ip = v4 127 0 0 1; port = 1080 };
  autostart = false;
  auto_connect = false;
  log_level = Config.error;
  host_fingerprint = some (codes "SHA256:abc");
}

home_IsCanonical : IsCanonical home_config
unfolding trim trim_start trim_end is_whitespace
home_IsCanonical = record {
  server = refl;
  username = refl;
  key_path = refl;
  port = omega arith;
  lower = omega arith;
  upper = omega arith;
  local_port = omega arith;
}

apply-from_config_example :
    apply_to_config tagged (from_config tagged home_config) home_config ≡ (home_config, ok tt)
apply-from_config_example = apply-from_config tagged home_config home_IsCanonical

-- The same form with a space behind the server's name.
abbrev spaced : SettingsForm
spaced = record (from_config tagged home_config) { server = codes "example.org " }

spaced_port : parse_port spaced ≡ ok 22
unfolding from_config parse_port trim trim_start trim_end is_whitespace to_decimal digits parse_uint
    parse_digits
spaced_port = refl

spaced_pool_size : parse_pool_size spaced ≡ ok 3
unfolding from_config parse_pool_size in_pool_range trim trim_start trim_end is_whitespace
    to_decimal digits parse_uint parse_digits
spaced_pool_size = refl

spaced_addr : parse_local_addr tagged spaced ≡ ok home_config.local_addr
unfolding from_config parse_local_addr Samples.print Samples.parse trim trim_start trim_end
    is_whitespace to_decimal digits parse_uint parse_digits
spaced_addr = refl

spaced-saves : (apply_to_config tagged spaced home_config).1 ≡ ok tt
unfolding apply_to_config
spaced-saves =
    rw (spaced_port, apply_to_config)
      (rw (spaced_pool_size, apply_to_config) (rw (spaced_addr, apply_to_config)))

apply-again_example :
    let saved = (apply_to_config tagged spaced home_config).0 in
    apply_to_config tagged (from_config tagged saved) saved ≡ (saved, ok tt)
apply-again_example = apply-again tagged spaced home_config spaced-saves

spaced-save_error : save_error tagged spaced ≡ none
unfolding save_error
spaced-save_error = simp (spaced_port, spaced_pool_size, spaced_addr)

spaced_saved : (apply_to_config tagged spaced home_config).1 ≡ ok tt
spaced_saved = (apply-save_error tagged spaced home_config).1 spaced-save_error

apply-host_fingerprint_example :
    ((trim spaced.server ≡ home_config.server)
      × (parse_port spaced ≡ ok home_config.port)
      × ((apply_to_config tagged spaced home_config).0.host_fingerprint
          ≡ home_config.host_fingerprint))
    ⊎ (((trim spaced.server ≢ home_config.server) ⊎ (parse_port spaced ≢ ok home_config.port))
        × ((apply_to_config tagged spaced home_config).0.host_fingerprint ≡ none))
apply-host_fingerprint_example = apply-host_fingerprint tagged spaced home_config spaced_saved
