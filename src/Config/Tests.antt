-- ===== src/Config/Tests.antt =====
-- Settings that are stored and found again, for src/config/mod.rs and src/config/keychain.rs.
use proxybear.Base.{
  Bool, true, ap, ◌≡◌, inl, refl, false, none, some, List, [], ◌∷◌, codes, Result, ok, err, arith,
}
use proxybear.Config.{AppConfig}
use proxybear.Config.Keychain.{ssh_password, key_passphrase, item}
use proxybear.Config.Store.{Store, Disk, load_config, load_secrets, read_config, start_up}
use proxybear.Config.Secrets.{AreTexts}
use proxybear.Config.Restart.{Reads}
use proxybear.Config.Migration.{migrate-start_up}
use proxybear.Config.Untouched.{Save, saves, saves-untouched}
use proxybear.Config.Autostart.{
  AutoLaunch, is_autostart_enabled, set_autostart, is_autostart_enabled-set_autostart,
}
use proxybear.Config.Runs.{before, calm, unlocked, first_run}
use proxybear.Config.Samples.{listed, print_all, parse_all-print_all}

abbrev changed : AppConfig
changed = record before { ssh_password = codes "pw"; port = 2222 }

abbrev full : Disk
full = record calm { written = err (codes "no space left" ∷ []) }

calm-Reads : Reads calm unlocked
calm-Reads = (refl, λ n. refl)

changed-AreTexts : AreTexts changed
changed-AreTexts ssh_password = (inl (omega arith), (inl (omega arith), tt))
changed-AreTexts key_passphrase = tt

-- The file of an older version.
abbrev legacy : Store
legacy = record first_run { file = some (print_all changed) }

legacy_loads :
    load_config listed calm (codes "config.toml") (codes "bear") false legacy.file ≡ ok changed
unfolding load_config read_config
legacy_loads =
    let found : AppConfig → Result AppConfig = λ c. ok (record c { autostart = false }) in
    ap found (parse_all-print_all changed)

migrate-start_up_example :
    let s = (load_secrets listed full unlocked changed legacy).0.1 in
    (s' : Store) × (r : Result (Unit {0})) × (start_up listed calm unlocked
        (codes "config.toml")
        (codes "bear")
        false
        s
      ≡ ok ((changed, s'), r))
migrate-start_up_example =
    migrate-start_up listed full calm unlocked unlocked (codes "config.toml") (codes "bear") false
      changed legacy legacy_loads refl changed-AreTexts calm-Reads

abbrev some_saves : List Save
some_saves =
    record { disk = calm; answers = unlocked; settings = changed }
    ∷ record { disk = full; answers = unlocked; settings = record before { port = 23 } }
    ∷ []

-- The passphrase is in the keychain, though it could not be read.
abbrev kept_phrase : Store
kept_phrase = record first_run {
  keychain = record { password = none; phrase = some (codes "secret") };
}

saves-untouched_example :
    item key_passphrase (saves listed some_saves before kept_phrase).1.keychain
    ≡ some (codes "secret")
saves-untouched_example =
    saves-untouched listed key_passphrase some_saves before kept_phrase (refl, (refl, tt))

entry-disable : (s : Bool) → err (codes "permission denied" ∷ []) ≡ ok (tt {0}) → ok s ≡ ok false
entry-disable s h = cc

-- A system with one entry, which the library cannot remove.
abbrev entry : AutoLaunch Bool
entry = record {
  current_exe = ok (codes "/Applications/ProxyBear");
  build = λ app. ok tt;
  enable = λ app s. (true, ok tt);
  disable = λ app s. (s, err (codes "permission denied" ∷ []));
  is_enabled = λ app s. ok s;
  is_enabled-enable = λ app s h. refl;
  is_enabled-disable = λ app s h. entry-disable s h;
}

entry-enabled : is_autostart_enabled entry (set_autostart entry true false).0 ≡ true
unfolding set_autostart
entry-enabled = is_autostart_enabled-set_autostart entry true false refl

entry-kept :
    set_autostart entry false true
    ≡ (true, err (codes "failed to disable autostart" ∷ codes "permission denied" ∷ []))
unfolding set_autostart
entry-kept = refl
