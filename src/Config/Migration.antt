-- ===== src/Config/Migration.antt =====
-- The secrets that older versions left in the file of src/config/mod.rs.
use proxybear.Base.{
  ◌≡◌, ◌⊎◌, inl, inr, refl, ◌∙◌, ap, Bool, true, Option, some, Text, Result, Result-cases, ok, err,
  ◌>>=◌,
}
use proxybear.Config.{AppConfig}
use proxybear.Config.Keychain.{Answers}
use proxybear.Config.Store.{
  Toml, Store, Disk, read_config, load_config, set_both, migrate, has_secrets, load_secrets,
  start_up,
}
use proxybear.Config.Secrets.{Holds, AreTexts, set_both-Holds}
use proxybear.Config.Restart.{Reads, start_up-read, save_config-Saved}

-- Where the migration leaves the store: the file as it was, or the secrets moved.
abbrev Moved : Toml → AppConfig → Store → Store → Type 0
Moved t c s s' =
    (s'.file ≡ s.file)
    ⊎ ((text : Text) × (t.print c ≡ ok text) × (s'.file ≡ some text) × Holds c s'.keychain)

migrate-Moved :
    (t : Toml) (d : Disk) (a : Answers) (c : AppConfig) (s : Store)
    → Moved t c s (migrate t d a c s).0
unfolding migrate
migrate-Moved t d a c s = elim (Result-cases (set_both a c s.keychain).1) [
  | inr (x, f) ↦ inl (rw (f, migrate) refl)
  | inl (u, f) ↦ elim (save_config-Saved t d c s.file) [
    | inl (x, g) ↦ inl (rw (f, g, migrate) refl)
    | inr (text, p, g) ↦
        inr (text, p, rw (f, g, migrate) refl, rw (f, migrate) (set_both-Holds a c s.keychain f))
  ]
]

load_secrets-migrate :
    (t : Toml) (d : Disk) (a : Answers) (c : AppConfig) (s : Store)
    → has_secrets c ≡ true
    → load_secrets t d a c s ≡ ((c, (migrate t d a c s).0), (migrate t d a c s).1)
unfolding load_secrets
load_secrets-migrate t d a c s h = rw (h, load_secrets) refl

value_or : AppConfig → Result AppConfig → AppConfig
value_or c (ok x) = x
value_or c (err e) = c

bind-autostart :
    (enabled : Bool) (r : Result AppConfig) (c : AppConfig)
    → (r >>= λ x. ok (record x { autostart = enabled })) ≡ ok c
    → record c { autostart = enabled } ≡ c
bind-autostart enabled (err e) c h = cc
bind-autostart enabled (ok x) c h =
    let e : record x { autostart = enabled } ≡ c = unfold value_or in ap (value_or c) h in
    rw⁻¹ e refl

pub load_config-autostart :
    (t : Toml) (d : Disk) (path user : Text) (enabled : Bool) (file : Option Text) (c : AppConfig)
    → load_config t d path user enabled file ≡ ok c
    → record c { autostart = enabled } ≡ c
unfolding load_config
load_config-autostart t d path user enabled file c h =
    bind-autostart enabled (read_config t d path user file) c h

-- If an older version left secrets in the file, then the start that finds them there may be cut short
-- at any step of moving them to the keychain: a later start that can read both again has the same
-- settings, secrets included.
pub migrate-start_up :
    (t : Toml) (d d' : Disk) (a a' : Answers) (path user : Text) (enabled : Bool) (c : AppConfig)
    (s : Store)
    → load_config t d' path user enabled s.file ≡ ok c
    → has_secrets c ≡ true
    → AreTexts c
    → Reads d' a'
    → let s' = (load_secrets t d a c s).0.1 in
      (s'' : Store) × (r : Result (Unit {0})) × (start_up t d' a' path user enabled s'
        ≡ ok ((c, s''), r))
unfolding start_up
migrate-start_up t d d' a a' path user enabled c s l h e w =
    let s' = (migrate t d a c s).0 in
    rw (load_secrets-migrate t d a c s h) (elim (migrate-Moved t d a c s) [
      | inl f ↦ (
        (migrate t d' a' c s').0,
        (migrate t d' a' c s').1,
        rw (f, l, start_up) (rw (load_secrets-migrate t d' a' c s' h) refl),
      )
      | inr (text, p, f, k) ↦ (
        s',
        ok tt,
        start_up-read t d' a' path user enabled c text s' f w p k e
            ∙ ap (λ x. ok ((x, s'), ok tt))
                (load_config-autostart t d' path user enabled s.file c l),
      )
    ])
