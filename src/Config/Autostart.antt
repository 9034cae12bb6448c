-- ===== src/Config/Autostart.antt =====
-- src/config/mod.rs: whether the system starts the application with the session, over the library that
-- asks the system.
use proxybear.Base.{
  ap, sym, ◌∙◌, Bool, true, false, ◌≡◌, inl, inr, Result-cases, refl, Text, codes, Option, Result,
  ok, err, context, ◌>>=◌, arith,
}
use proxybear.Config.{AppConfig}
use proxybear.Config.Store.{Toml, Disk, load_config}
use proxybear.Config.Migration.{load_config-autostart}

-- The library, set up for a path of the application, and what it does to the system's state `S`: an
-- entry that it made is there, and one that it removed is not.
pub record AutoLaunch (S : Type 0) : Type 0 where
  pub current_exe : Result Text
  pub build : Text → Result (Unit {0})
  pub enable : Text → S → S × Result (Unit {0})
  pub disable : Text → S → S × Result (Unit {0})
  pub is_enabled : Text → S → Result Bool
  pub is_enabled-enable :
      (app : Text) (s : S) → (enable app s).1 ≡ ok tt → is_enabled app (enable app s).0 ≡ ok true
  pub is_enabled-disable :
      (app : Text) (s : S) → (disable app s).1 ≡ ok tt → is_enabled app (disable app s).0 ≡ ok false

module _ {S : Type 0} (l : AutoLaunch S) where
  -- The path that the library is set up for.
  unfoldable pub autostart : Result Text
  autostart = context (codes "failed to resolve current executable") l.current_exe >>= λ app.
      context (codes "failed to configure autostart") (l.build app) >>= λ u. ok app

  abbrev pub or_off : Result Bool → Bool
  or_off (ok b) = b
  or_off (err e) = false

  unfoldable pub is_autostart_enabled : S → Bool
  unfolding autostart
  is_autostart_enabled s = or_off (autostart >>= λ app. l.is_enabled app s)

  abbrev pub switch : Bool → Text → S → S × Result (Unit {0})
  switch true app s =
      let r = l.enable app s in (r.0, context (codes "failed to enable autostart") r.1)
  switch false app s =
      let r = l.disable app s in (r.0, context (codes "failed to disable autostart") r.1)

  unfoldable pub set_autostart : Bool → S → S × Result (Unit {0})
  unfolding autostart
  set_autostart enabled s = elim autostart [ ok app ↦ switch enabled app s | err e ↦ (s, err e) ]

  context-ok : (m : Text) (r : Result (Unit {0})) → context m r ≡ ok tt → r ≡ ok tt
  context-ok m (ok tt) h = refl
  context-ok m (err e) h = cc

  is_enabled-switch :
      (enabled : Bool) (app : Text) (s : S)
      → (switch enabled app s).1 ≡ ok tt
      → l.is_enabled app (switch enabled app s).0 ≡ ok enabled
  is_enabled-switch true app s h = l.is_enabled-enable app s (context-ok _ _ h)
  is_enabled-switch false app s h = l.is_enabled-disable app s (context-ok _ _ h)

  -- What was set is found again.
  pub is_autostart_enabled-set_autostart :
      (enabled : Bool) (s : S)
      → (set_autostart enabled s).1 ≡ ok tt
      → is_autostart_enabled (set_autostart enabled s).0 ≡ enabled
  unfolding set_autostart is_autostart_enabled
  is_autostart_enabled-set_autostart enabled s h = elim (Result-cases autostart) [
    | inr (e, f) ↦ absurd (ground (arith, f))
    | inl (app, f) ↦
        let g : (switch enabled app s).1 ≡ ok tt = ground (arith, f) in
        rw (f, set_autostart) (ap or_off (is_enabled-switch enabled app s g))
  ]

  -- Settings that are loaded after that say what was set.
  pub load_config-set_autostart :
      (t : Toml) (d : Disk) (path user : Text) (file : Option Text) (enabled : Bool) (s : S)
      (c : AppConfig)
      → (set_autostart enabled s).1 ≡ ok tt
      → load_config t d path user (is_autostart_enabled (set_autostart enabled s).0) file ≡ ok c
      → c.autostart ≡ enabled
  load_config-set_autostart t d path user file enabled s c h e =
      sym (ap (λ x. x.autostart) (load_config-autostart t d path user _ file c e))
      ∙ is_autostart_enabled-set_autostart enabled s h
