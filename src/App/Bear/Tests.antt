-- ===== src/App/Bear/Tests.antt =====
-- Runs of the application's handlers.
use proxybear.Base.{arith, ◌≡◌, refl, false, none, some, [], ◌∷◌, codes}
use proxybear.Config
use proxybear.Config.{AppConfig}
use proxybear.Base.Trim.{trim, trim_start, trim_end, is_whitespace}
use proxybear.Base.Decimal.{to_decimal, digits}
use proxybear.Net.{v4}
use proxybear.Config.Ready.{IsReady}
use proxybear.Stats.{HostKeyPrompt}
use proxybear.App.Bear.Restart.{StartsNext, trust-StartsNext}
use proxybear.App.Bear.Background.{refresh_enough}
use proxybear.App.Bear.Core.{core, Reaches}
use proxybear.App.Bear.Refines.{IsValidCore, run-Reaches}
use proxybear.Config
use proxybear.App.Bear.Ranges.{Fits, run-Fits}
use proxybear.App.Bear.Handlers.{port, save}
use proxybear.App.Bear.Events.{Event, field_event, closing, run}
use proxybear.App.Bear.Samples.{willing, asking, bear}
use proxybear.App.Bear.{Outside, List, refresh, refresh_stats, true, ProxyBear}
use proxybear.App.Bear.Handlers.{server_text, trust, start_stop, trust_host_key}
use proxybear.App.Bear.Events.{run, step, menu_event, field_event, resolve_close}
use proxybear.App.Bear.Trust.{step-Writes}
use proxybear.App.Bear.Writes.{Writes}
use proxybear.App.Bear.Closing.{Settled, resolve_close-Settled}

bear-IsValidCore : IsValidCore (core bear)
bear-IsValidCore stats = record {
  one_task = refl;
  running_alive = λ e. cc;
  pending_stopping = λ e. cc;
}

run-Reaches_example :
    let a =
      run ((willing, menu_event start_stop) ∷ (willing, field_event trust_host_key) ∷ []) bear in
    Reaches (core bear) (core a) × IsValidCore (core a)
run-Reaches_example =
    run-Reaches ((willing, menu_event start_stop) ∷ (willing, field_event trust_host_key) ∷ []) bear
      bear-IsValidCore

step-Writes_example :
    Writes willing asking.host_key_prompt bear (step willing (field_event trust_host_key) bear)
step-Writes_example = step-Writes willing (field_event trust_host_key) bear

resolve_close-Settled_example : Settled willing 1 bear (resolve_close willing 1 bear).0
unfolding resolve_close
resolve_close-Settled_example = resolve_close-Settled willing 1 bear refl

-- Settings that a run may start with, once `SHA256:new` is trusted.
abbrev trusting : AppConfig
trusting = record {
  server = codes "example.org";
  username = codes "bear";
  port = 22;
  pool_size = 3;
  auth_method = Config.key;
  key_path = codes "/id";
  key_password = [];
  ssh_password = [];
  local_addr = record { ip = v4 127 0 0 1; port = 1080 };
  autostart = false;
  auto_connect = false;
  log_level = Config.error;
  host_fingerprint = some (codes "SHA256:new");
}

trusting-IsReady : IsReady trusting
unfolding trim trim_start trim_end is_whitespace
trusting-IsReady = record {
  server = λ e. cc;
  username = λ e. cc;
  key_path = λ m e. cc;
  lower = omega arith;
  upper = omega arith;
}

abbrev new_key : HostKeyPrompt
new_key = record {
  server = codes "example.org:22";
  fingerprint = codes "SHA256:new";
  previous = none;
}

-- The proxy runs, and asks.
abbrev running_bear : ProxyBear
running_bear = record bear {
  config = record trusting { host_fingerprint = none };
  proxy = record { shutdown = true; task_alive = true; start_pending = false };
}

new_key-server_text : new_key.server ≡ server_text running_bear.config
unfolding to_decimal digits
new_key-server_text = refl

trust-StartsNext_example : StartsNext willing trusting (trust willing running_bear)
trust-StartsNext_example =
    trust-StartsNext willing running_bear new_key refl new_key-server_text refl refl refl
      trusting-IsReady

refresh_enough_example : refresh 5 willing bear ≡ refresh_stats willing bear
refresh_enough_example = refresh_enough 4 willing bear

bear-Fits : Fits bear.config
unfolding Config.default
bear-Fits = record { port = omega arith; local_port = omega arith; pool_size = omega arith }

abbrev some_saves : List (Outside × Event)
some_saves =
    (willing, field_event (port (codes "70000")))
    ∷ (willing, field_event save)
    ∷ (willing, field_event (port (codes "2222")))
    ∷ (willing, closing 0)
    ∷ []

run-Fits_example : Fits (run some_saves bear).config
run-Fits_example = run-Fits some_saves bear bear-Fits
