-- ===== src/App/Launch/Tests.antt =====
-- A start with settings that are ready, and that say to connect.
use proxybear.Base.Trim.{trim, trim_start, trim_end, is_whitespace}
use proxybear.Base.Decimal.{to_decimal, digits, parse_uint, parse_digits}
use proxybear.Net.Samples
use proxybear.Settings.Form.{
  apply_to_config, parse_port, parse_pool_size, in_pool_range, parse_local_addr, from_config,
  with_server, with_login,
}
use proxybear.Config.Secrets.{Holds, AreTexts}
use proxybear.Config.Keychain.{ssh_password, key_passphrase}
use proxybear.Config.Store.{save_config, write_temporary, save_secrets, set_changed}
use proxybear.App.Bear.{save_settings, save_config_state}
use proxybear.App.Launch.Again.{on_store, kept, Works, main-save_settings}
use proxybear.Base.{
  ◌>>=◌, ◌≡◌, ◌↔◌, ap, refl, true, false, none, some, List, [], ◌∷◌, codes, Result, ok, err,
  if◌then◌else◌,
}
use proxybear.Net.Samples.{tagged}
use proxybear.Config.{AppConfig, runtime_config}
use proxybear.Config.Keychain.{get}
use proxybear.Config.Runs.{before, calm, unlocked, first_run}
use proxybear.Config.Samples.{listed}
use proxybear.Config.Store.{Store, load_config, load_secrets, read_secrets, read_config}
use proxybear.App.Bear.{ProxyBear, Outside}
use proxybear.App.Bear.Events.{Event, field_event, menu_event, ended, run}
use proxybear.App.Bear.Handlers.{save, start_stop}
use proxybear.App.Bear.Samples.{willing}
use proxybear.App.Launch.{
  ℕ, Boot, main, new, made, made_with, settings, listen, running, first_stats,
}
use proxybear.App.Launch.Sound.{IsSound, main-IsSound, main-icon}
use proxybear.App.Icon.{happy}
use proxybear.App.View.General.{general_page}
use proxybear.App.View.Status.{connected}
use proxybear.App.Launch.Connects.{first_tasks, main-tasks}

abbrev eager : AppConfig
eager = record before { auto_connect = true }

abbrev text_of : Result (List ℕ) → List ℕ
text_of (ok s) = s
text_of (err e) = []

abbrev saved : Store
saved = record first_run { file = some (text_of (listed.print eager)) }

abbrev boot : Boot
boot = record {
  ips = tagged;
  paths = ok tt;
  config_path = codes "config.toml";
  user = codes "bear";
  enabled = false;
  logging = λ l. ok tt;
  runtime = ok tt;
  tray = λ b. ok tt;
}

settings-eager : settings listed calm boot saved ≡ ok eager
unfolding settings load_config read_config
settings-eager =
    let found : Result AppConfig → Result AppConfig =
      λ r. r >>= λ c. ok (record c { autostart = false }) in
    ap found (listed.parse-print eager (text_of (listed.print eager)) refl)

abbrev begun : ProxyBear
begun = listen willing (made tagged eager (first_stats (ok tt)))

main-begun : (main listed calm unlocked boot willing saved).1 ≡ running begun
unfolding made_with load_secrets read_secrets get main listen
main-begun = rw (settings-eager, main, new) refl

abbrev some_events : List (Outside × Event)
some_events =
    (willing, menu_event start_stop) ∷ (willing, field_event save) ∷ (willing, ended none) ∷ []

main-IsSound_example : IsSound (run some_events begun)
main-IsSound_example =
    main-IsSound listed calm unlocked boot willing saved begun some_events main-begun

main-icon_example :
    ((run some_events begun).icon ≡ happy)
    ↔ ((general_page willing (run some_events begun)).state ≡ connected)
main-icon_example =
    main-icon listed calm unlocked boot willing saved begun some_events main-begun (refl, refl)
      ((refl, refl), ((refl, refl), ((refl, refl), tt)))

main-tasks_example : begun.tasks ≡ (
    if begun.config.auto_connect
    then first_tasks (runtime_config willing.home begun.config)
    else [])
main-tasks_example = main-tasks listed calm unlocked boot willing saved begun main-begun

-- The form of the application that has begun, with another port.
abbrev edited : ProxyBear
edited = record (made tagged eager (first_stats (ok tt))) {
  form = record (from_config tagged eager) { port = codes "2222" };
}

edited-saved : (save_settings (on_store listed calm unlocked saved willing) edited).1 ≡ ok tt
unfolding on_store save_settings save_config_state apply_to_config parse_port parse_pool_size
    in_pool_range parse_local_addr from_config Samples.print Samples.parse trim trim_start trim_end
    is_whitespace to_decimal digits parse_uint parse_digits save_config write_temporary save_secrets
    set_changed made with_server with_login
edited-saved = refl

eager-Holds : Holds edited.config saved.keychain
unfolding made
eager-Holds ssh_password = refl
eager-Holds key_passphrase = refl

edited-AreTexts :
    AreTexts (save_settings (on_store listed calm unlocked saved willing) edited).0.config
unfolding on_store save_settings save_config_state apply_to_config parse_port parse_pool_size
    in_pool_range parse_local_addr from_config Samples.print Samples.parse trim trim_start trim_end
    is_whitespace to_decimal digits parse_uint parse_digits save_config write_temporary save_secrets
    set_changed made with_server with_login
edited-AreTexts ssh_password = tt
edited-AreTexts key_passphrase = tt

boot-Works : Works boot
boot-Works = record { paths = refl; logging = λ l. refl; runtime = refl; tray = λ b. refl }

main-save_settings_example :
    let after = (save_settings (on_store listed calm unlocked saved willing) edited).0.config in
    let kept_now = kept listed calm unlocked willing edited saved in
    main listed calm unlocked boot willing kept_now ≡ (
      kept_now,
      running
          (listen willing (made tagged (record after { autostart = false }) (first_stats (ok tt)))),
    )
main-save_settings_example =
    main-save_settings listed calm calm unlocked unlocked boot willing willing edited saved
      eager-Holds edited-saved edited-AreTexts (refl, λ n. refl) boot-Works
