-- ===== src/Config/Store.antt =====
-- src/config/mod.rs: the configuration file, and the secrets, which are kept in the keychain instead.
use proxybear.Base.{
  Bool, not, ◌||◌, ◌≡◌, Option, none, some, [], ◌∷◌, ◌++◌, Text, codes, is_empty, text_eq,
  if◌then◌else◌, Result, ok, err, context, ◌>>=◌, ◌>>◌,
}
use proxybear.Config.{AppConfig, default}
use proxybear.Config.Keychain.{Account, Answers, Keychain, get, set, ssh_password, key_passphrase}

-- The file leaves the secrets out.
abbrev pub without_secrets : AppConfig → AppConfig
without_secrets c = record c { key_password = []; ssh_password = [] }

-- The file's format, which the TOML library prints and parses: fields that are skipped when the
-- settings are written have their defaults when they are read.
pub record Toml : Type 0 where
  pub print : AppConfig → Result Text
  pub parse : Text → Result AppConfig
  pub parse-print :
      (c : AppConfig) (text : Text) → print c ≡ ok text → parse text ≡ ok (without_secrets c)

-- What is kept between two runs of the application: the text of the configuration file, if there is
-- one, and the keychain.
pub record Store : Type 0 where
  pub file : Option Text
  pub keychain : Keychain

-- What the file system answers.
pub record Disk : Type 0 where
  pub read_fails : Option Text
  pub directory : Result (Unit {0})
  pub temporary : Result (Unit {0})
  pub written : Result (Unit {0})
  pub persisted : Result (Unit {0})

-- The settings of the file, if it can be read.
unfoldable pub read_config : Toml → Disk → Text → Text → Option Text → Result AppConfig
read_config t d path user file = elim d.read_fails [
  | some e ↦ err (codes "failed to read config" ∷ e ∷ [])
  | none ↦ elim file [
    | none ↦ ok (default user)
    | some text ↦ context (codes "invalid config TOML in " ++ path) (t.parse text)
  ]
]

-- The system tells whether the application is started with the session.
unfoldable pub load_config : Toml → Disk → Text → Text → Bool → Option Text → Result AppConfig
unfolding read_config
load_config t d path user enabled file =
    read_config t d path user file >>= λ c. ok (record c { autostart = enabled })

-- The steps before the configuration file is touched, in the order in which they run.
abbrev pub written_in :
    Result (Unit {0}) → Result (Unit {0}) → Result (Unit {0}) → Result Text → Result Text
written_in directory temporary written printed =
    context (codes "failed to create config directory") directory
    >> (context (codes "failed to serialize config") printed >>= λ text.
        context (codes "failed to create temporary config file") temporary
        >> (context (codes "failed to write config") written >> ok text))

-- The temporary file with the new text.
unfoldable pub write_temporary : Toml → Disk → AppConfig → Result Text
write_temporary t d c = written_in d.directory d.temporary d.written (t.print c)

unfoldable pub save_config : Toml → Disk → AppConfig → Option Text → Option Text × Result (Unit {0})
unfolding write_temporary
save_config t d c file = elim (write_temporary t d c) [
  | err e ↦ (file, err e)
  | ok text ↦ elim d.persisted [
    | err e ↦ (file, err (codes "failed to replace config" ∷ e))
    | ok u ↦ (some text, ok tt)
  ]
]

-- The `?` operator between two writes to the keychain.
abbrev pub and_then :
    Keychain × Result (Unit {0})
    → (Keychain → Keychain × Result (Unit {0}))
    → Keychain × Result (Unit {0})
and_then (k, err e) next = (k, err e)
and_then (k, ok u) next = next k

unfoldable pub set_both : Answers → AppConfig → Keychain → Keychain × Result (Unit {0})
set_both a c k =
    and_then (set a ssh_password c.ssh_password k) (set a key_passphrase c.key_password)

-- The secrets that an older version left in the file move to the keychain.
unfoldable pub migrate : Toml → Disk → Answers → AppConfig → Store → Store × Result (Unit {0})
unfolding set_both
migrate t d a c s =
    let (k, r) = set_both a c s.keychain in
    elim r [
      | err e ↦ (record s { keychain = k }, err e)
      | ok u ↦
          let (file, saved) = save_config t d c s.file in
          (
            record { file = file; keychain = k },
            context (codes "failed to remove secrets from config") saved,
          )
    ]

unfoldable pub read_secrets : Answers → AppConfig → Keychain → AppConfig × Result (Unit {0})
read_secrets a c k = elim (get a ssh_password k) [
  | err e ↦ (c, err e)
  | ok p ↦ elim (get a key_passphrase k) [
    | err e ↦ (record c { ssh_password = p }, err e)
    | ok q ↦ (record c { ssh_password = p; key_password = q }, ok tt)
  ]
]

abbrev pub has_secrets : AppConfig → Bool
has_secrets c = not (is_empty c.ssh_password) || not (is_empty c.key_password)

unfoldable pub load_secrets :
    Toml → Disk → Answers → AppConfig → Store → (AppConfig × Store) × Result (Unit {0})
unfolding migrate read_secrets
load_secrets t d a c s =
    if has_secrets c
    then (let (s', r) = migrate t d a c s in ((c, s'), r))
    else (let (c', r) = read_secrets a c s.keychain in ((c', s), r))

-- A secret that has not changed is not written.
unfoldable pub set_changed :
    Answers → Account → Text → Text → Keychain → Keychain × Result (Unit {0})
set_changed a name before now k = if text_eq now before then (k, ok tt) else set a name now k

unfoldable pub save_secrets :
    Answers → AppConfig → AppConfig → Keychain → Keychain × Result (Unit {0})
unfolding set_changed
save_secrets a old new k =
    and_then (set_changed a ssh_password old.ssh_password new.ssh_password k)
      (set_changed a key_passphrase old.key_password new.key_password)

-- The settings that the application starts with, and whether their secrets could be read.
unfoldable pub start_up :
    Toml
    → Disk
    → Answers
    → Text
    → Text
    → Bool
    → Store
    → Result ((AppConfig × Store) × Result (Unit {0}))
unfolding load_config load_secrets
start_up t d a path user enabled s =
    context (codes "load config") (load_config t d path user enabled s.file) >>= λ c.
    ok (load_secrets t d a c s)

-- The settings that `save_settings` stores.
unfoldable pub store_settings :
    Toml → Disk → Answers → AppConfig → AppConfig → Store → Store × Result (Unit {0})
unfolding save_secrets save_config
store_settings t d a old new s =
    let (k, r) = save_secrets a old new s.keychain in
    elim r [
      | err e ↦ (record s { keychain = k }, err e)
      | ok u ↦
          let (file, saved) = save_config t d new s.file in
          (record { file = file; keychain = k }, context (codes "failed to save config") saved)
    ]
