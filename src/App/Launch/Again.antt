-- ===== src/App/Launch/Again.antt =====
-- The settings that are saved in the window of src/main.rs are those of the next start.
use proxybear.Config.Keychain.{Answers}
use proxybear.Config.Secrets.{Holds, AreTexts}
use proxybear.Config.Restart.{Reads, store_settings-start_up}
use proxybear.Config.Store.{
  start_up, load_config, load_secrets, Toml, Disk, Store, save_config, save_secrets, store_settings,
}
use proxybear.App.Launch.{
  main, new, made, made_with, settings, listen, running, first_stats, AppConfig, Boot,
}
use proxybear.Base.{refl, subst, Result-cases, inl, inr, ◌≡◌, ok, err, arith}
use proxybear.Config.{LogLevel}
use proxybear.Settings.Form.{apply_to_config}
use proxybear.App.Bear.{ProxyBear, Outside, save_settings, save_config_state}

-- A system that answers as the file and the keychain do.
unfoldable pub on_store : Toml → Disk → Answers → Store → Outside → Outside
on_store t d k s o = record o {
  write_config = λ c. (save_config t d c s.file).1;
  write_secrets = λ old new. (save_secrets k old new s.keychain).1;
}

-- What is kept once the form is saved.
unfoldable pub kept : Toml → Disk → Answers → Outside → ProxyBear → Store → Store
kept t d k o a s =
    let r = apply_to_config o.ips a.form a.config in
    elim r.1 [ ok u ↦ (store_settings t d k a.config r.0 s).0 | err e ↦ s ]

-- Nothing fails as the application is made.
pub record Works (b : Boot) : Type 0 where
  pub paths : b.paths ≡ ok tt
  pub logging : (l : LogLevel) → b.logging l ≡ ok tt
  pub runtime : b.runtime ≡ ok tt
  pub tray : (connects : _) → b.tray connects ≡ ok tt

module _ (t : Toml) (d : Disk) (k : Answers) (o : Outside) (a : ProxyBear) (s : Store)
    (saved : (save_settings (on_store t d k s o) a).1 ≡ ok tt) where
  saved-apply : (apply_to_config o.ips a.form a.config).1 ≡ ok tt
  unfolding save_settings on_store
  saved-apply = ground arith

  saved-config :
      (save_settings (on_store t d k s o) a).0.config ≡ (apply_to_config o.ips a.form a.config).0
  unfolding save_settings save_config_state on_store
  saved-config = ground (arith, saved-apply)

  saved-stored :
      (store_settings t d k a.config (apply_to_config o.ips a.form a.config).0 s).1 ≡ ok tt
  unfolding save_settings save_config_state on_store store_settings
  saved-stored = ground (arith, saved-apply)

  kept-stored :
      kept t d k o a s
      ≡ (store_settings t d k a.config (apply_to_config o.ips a.form a.config).0 s).0
  unfolding kept
  kept-stored = rw (saved-apply, kept) refl

-- A start that finds these settings goes on with them.
start_up-main :
    (t : Toml) (d : Disk) (k : Answers) (b : Boot) (o : Outside) (s : Store) (c : AppConfig)
    → Works b
    → start_up t d k b.config_path b.user b.enabled s ≡ ok ((c, s), ok tt)
    → main t d k b o s ≡ (s, running (listen o (made b.ips c (first_stats (ok tt)))))
unfolding start_up main new settings made_with
start_up-main t d k b o s c w h =
    elim (Result-cases (load_config t d b.config_path b.user b.enabled s.file)) [
      | inr (x, e) ↦ absurd (ground (arith, e))
      | inl (found, e) ↦
          let l : load_secrets t d k found s ≡ ((c, s), ok tt) = ground (arith, e) in
          ground (arith, e, l, w.paths, w.logging found.log_level, w.runtime, w.tray c.auto_connect)
    ]

-- If the keychain holds the secrets that the application knows, the form is saved without an error, and
-- the file and the keychain can be read at the next start, where nothing else fails: then the
-- application starts with the settings that were saved, secrets included, and its form shows them; only
-- whether it starts with the session is asked of the system.
pub main-save_settings :
    (t : Toml) (d d' : Disk) (k k' : Answers) (b : Boot) (o o' : Outside) (a : ProxyBear)
    (s : Store)
    → let after = (save_settings (on_store t d k s o) a).0.config in
      Holds a.config s.keychain
      → (save_settings (on_store t d k s o) a).1 ≡ ok tt
      → AreTexts after
      → Reads d' k'
      → Works b
      → let kept_now = kept t d k o a s in
        main t d' k' b o' kept_now ≡ (
          kept_now,
          running (
              listen o'
                (made b.ips (record after { autostart = b.enabled }) (first_stats (ok tt)))),
        )
main-save_settings t d d' k k' b o o' a s h r x w y =
    let new = (apply_to_config o.ips a.form a.config).0 in
    let e = saved-config t d k o a s r in
    let again =
      store_settings-start_up t d d' k k' b.config_path b.user b.enabled a.config new s h
        (subst AreTexts e x) (saved-stored t d k o a s r) w in
    rw (kept-stored t d k o a s r, e)
      (start_up-main t d' k' b o' _ (record new { autostart = b.enabled }) y again)
