-- ===== src/Config/Restart.antt =====
-- src/config/mod.rs: the settings that the next start of the application finds.
use proxybear.Base.{
  ◌≡◌, ◌⊎◌, inl, inr, refl, Bool, Option, none, some, ◌∷◌, Text, codes, Result, Result-cases, ok,
  err, Error,
}
use proxybear.Config.{AppConfig}
use proxybear.Config.Keychain.{Account, ssh_password, key_passphrase, Answers, Keychain}
use proxybear.Config.Store.{
  Toml, Store, Disk, without_secrets, read_config, load_config, write_temporary, written_in,
  save_config, read_secrets, load_secrets, save_secrets, start_up, store_settings,
}
use proxybear.Config.Secrets.{Holds, AreTexts, get-Holds, save_secrets-Holds, ok-err}

-- The file and the keychain can be read.
abbrev pub Reads : Disk → Answers → Type 0
Reads d a = (d.read_fails ≡ none) × ((n : Account) → a.read_fails n ≡ none)

-- Either nothing has happened to the file, or it has the settings' text.
abbrev Saved : Toml → AppConfig → Option Text → Option Text × Result (Unit {0}) → Type 0
Saved t c file x =
    ((e : Error) × (x ≡ (file, err e)))
    ⊎ ((text : Text) × (t.print c ≡ ok text) × (x ≡ (some text, ok tt)))

written-print :
    (directory temporary written : Result (Unit {0})) (printed : Result Text) (text : Text)
    → written_in directory temporary written printed ≡ ok text
    → printed ≡ ok text
written-print (ok u) (ok v) (ok w) (ok p) text h = h
written-print (ok u) (ok v) (err e) (ok p) text h = cc
written-print (ok u) (err e) written (ok p) text h = cc
written-print (ok u) temporary written (err e) text h = cc
written-print (err e) temporary written printed text h = cc

write_temporary-print :
    (t : Toml) (d : Disk) (c : AppConfig) (text : Text)
    → write_temporary t d c ≡ ok text
    → t.print c ≡ ok text
unfolding write_temporary
write_temporary-print t d c text h =
    written-print d.directory d.temporary d.written (t.print c) text h

pub save_config-Saved :
    (t : Toml) (d : Disk) (c : AppConfig) (file : Option Text)
    → Saved t c file (save_config t d c file)
unfolding save_config
save_config-Saved t d c file = elim (Result-cases (write_temporary t d c)) [
  | inr (e, f) ↦ rw (f, save_config) (inl (_, refl))
  | inl (text, f) ↦ elim (Result-cases d.persisted) [
    | inr (e, g) ↦ rw (f, g, save_config) (inl (_, refl))
    | inl (u, g) ↦ rw (f, g, save_config) (inr (text, write_temporary-print t d c text f, refl))
  ]
]

read_secrets-Holds :
    (a : Answers) (c b : AppConfig) (k : Keychain)
    → ((n : Account) → a.read_fails n ≡ none)
    → Holds c k
    → AreTexts c
    → read_secrets a b k
      ≡ (record b { ssh_password = c.ssh_password; key_password = c.key_password }, ok tt)
unfolding read_secrets
read_secrets-Holds a c b k r h t =
    rw
      (
        get-Holds a c k ssh_password (r ssh_password) h t,
        get-Holds a c k key_passphrase (r key_passphrase) h t,
        read_secrets,
      )
      refl

-- A start after the settings were stored.
pub start_up-read :
    (t : Toml) (d : Disk) (a : Answers) (path user : Text) (enabled : Bool) (c : AppConfig)
    (text : Text) (s : Store)
    → s.file ≡ some text
    → Reads d a
    → t.print c ≡ ok text
    → Holds c s.keychain
    → AreTexts c
    → start_up t d a path user enabled s ≡ ok ((record c { autostart = enabled }, s), ok tt)
unfolding start_up load_config read_config load_secrets
start_up-read t d a path user enabled c text s f r p h e =
    let b : AppConfig = record (without_secrets c) { autostart = enabled } in
    let loaded : load_config t d path user enabled s.file ≡ ok b =
      rw (r.0, f, load_config) (rw (t.parse-print c text p) refl) in
    rw (loaded, start_up) (rw (read_secrets-Holds a c b s.keychain r.1 h e) refl)

-- What is kept after the settings were stored.
store_settings-ok :
    (t : Toml) (d : Disk) (a : Answers) (old new : AppConfig) (s : Store)
    → (store_settings t d a old new s).1 ≡ ok tt
    → (text : Text) × (t.print new ≡ ok text)
      × ((save_secrets a old new s.keychain).1 ≡ ok tt)
      × ((store_settings t d a old new s).0.file ≡ some text)
      × ((store_settings t d a old new s).0.keychain ≡ (save_secrets a old new s.keychain).0)
unfolding store_settings
store_settings-ok t d a old new s r = elim (Result-cases (save_secrets a old new s.keychain).1) [
  | inr (x, f) ↦ absurd (ok-err _ x r (rw (f, store_settings) refl))
  | inl (u, f) ↦ elim (save_config-Saved t d new s.file) [
    | inl (x, g) ↦
        absurd (ok-err _ (codes "failed to save config" ∷ x) r (rw (f, g, store_settings) refl))
    | inr (text, p, g) ↦ (text, p, f, rw (f, g, store_settings) refl, rw (f, store_settings) refl)
  ]
]

-- If the keychain holds the secrets of the settings, and new settings are stored without an error, then
-- the next start finds the new settings, secrets included; only whether the application starts with the
-- session is asked of the system.
pub store_settings-start_up :
    (t : Toml) (d d' : Disk) (a a' : Answers) (path user : Text) (enabled : Bool)
    (old new : AppConfig) (s : Store)
    → Holds old s.keychain
    → AreTexts new
    → (store_settings t d a old new s).1 ≡ ok tt
    → Reads d' a'
    → let s' = (store_settings t d a old new s).0 in
      start_up t d' a' path user enabled s' ≡ ok ((record new { autostart = enabled }, s'), ok tt)
store_settings-start_up t d d' a a' path user enabled old new s h e r w =
    let (text, p, f, g, k) = store_settings-ok t d a old new s r in
    let s' = (store_settings t d a old new s).0 in
    let held : Holds new s'.keychain = rw k (save_secrets-Holds a old new s.keychain h f) in
    start_up-read t d' a' path user enabled new text s' g w p held e
