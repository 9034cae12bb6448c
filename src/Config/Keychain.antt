-- ===== src/Config/Keychain.antt =====
-- src/config/keychain.rs: the secrets that the system's keychain keeps. What the keychain answers to a
-- call is an argument.
use proxybear.Base.{
  ℕ, Option, none, some, List, [], ◌∷◌, ◌++◌, Text, codes, is_empty, if◌then◌else◌, Result, ok, err,
}
use proxybear.Base.Utf8.{from_utf8}
use proxybear.Base.Utf8.Encode.{as_bytes}

pub data Account : Type 0 where
  ssh_password key_passphrase : Account

unfoldable pub account_name : Account → Text
account_name ssh_password = codes "ssh-password"
account_name key_passphrase = codes "key-passphrase"

-- The items of the application's service, if they are stored.
pub record Keychain : Type 0 where
  pub password : Option (List ℕ)
  pub phrase : Option (List ℕ)

abbrev pub item : Account → Keychain → Option (List ℕ)
item ssh_password k = k.password
item key_passphrase k = k.phrase

abbrev pub put : Account → Option (List ℕ) → Keychain → Keychain
put ssh_password i k = record k { password = i }
put key_passphrase i k = record k { phrase = i }

-- Whether a call fails, other than for an item that is not there; and the text of an error in UTF-8.
pub record Answers : Type 0 where
  pub read_fails : Account → Option Text
  pub write_fails : Account → Option Text
  pub utf8_error : List ℕ → Text

unfoldable pub get : Answers → Account → Keychain → Result Text
unfolding account_name
get a name k = elim (a.read_fails name) [
  | some e ↦
      err ((codes "failed to read " ++ (account_name name ++ codes " from the Keychain")) ∷ e ∷ [])
  | none ↦ elim (item name k) [
    | none ↦ ok []
    | some bytes ↦ elim (from_utf8 bytes) [
      | some value ↦ ok value
      | none ↦ err (
          (codes "Keychain item " ++ (account_name name ++ codes " is not valid UTF-8"))
          ∷ a.utf8_error bytes
          ∷ [])
    ]
  ]
]

-- An empty value is not stored.
abbrev pub item_of : Text → Option (List ℕ)
item_of value = if is_empty value then none else some (as_bytes value)

unfoldable pub set : Answers → Account → Text → Keychain → Keychain × Result (Unit {0})
unfolding account_name
set a name value k = elim (a.write_fails name) [
  | some e ↦ (
    k,
    err ((codes "failed to save " ++ (account_name name ++ codes " to the Keychain")) ∷ e ∷ []),
  )
  | none ↦ (put name (item_of value) k, ok tt)
]
