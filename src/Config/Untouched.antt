-- ===== src/Config/Untouched.antt =====
-- The items of the keychain that the writes of src/config/mod.rs leave alone.
use proxybear.Base.{
  ◌≡◌, inl, inr, refl, sym, ◌∙◌, ap, List, [], ◌∷◌, Result, Result-cases, ok, err, is_ok,
  if◌then◌else◌, All,
}
use proxybear.Config.{AppConfig}
use proxybear.Config.Keychain.{Account, Answers, item}
use proxybear.Config.Store.{Toml, Store, Disk, save_secrets, store_settings}
use proxybear.Config.Secrets.{secret_of, save_secrets-untouched}

-- An attempt to store settings, with what the system answers to it.
pub record Save : Type 0 where
  pub disk : Disk
  pub answers : Answers
  pub settings : AppConfig

-- The settings stay as they are if they cannot be stored.
unfoldable pub saves : Toml → List Save → AppConfig → Store → AppConfig × Store
saves t [] c s = (c, s)
saves t (x ∷ xs) c s =
    let (s', r) = store_settings t x.disk x.answers c x.settings s in
    saves t xs (if is_ok r then x.settings else c) s'

store_settings-keychain :
    (t : Toml) (d : Disk) (a : Answers) (old new : AppConfig) (s : Store)
    → (store_settings t d a old new s).0.keychain ≡ (save_secrets a old new s.keychain).0
unfolding store_settings
store_settings-keychain t d a old new s =
    elim (Result-cases (save_secrets a old new s.keychain).1) [
      | inl (u, f) ↦ rw (f, store_settings) refl
      | inr (u, f) ↦ rw (f, store_settings) refl
    ]

kept-secret :
    (n : Account) (r : Result (Unit {0})) (c new : AppConfig)
    → secret_of n new ≡ secret_of n c
    → secret_of n (if is_ok r then new else c) ≡ secret_of n c
kept-secret n (ok u) c new h = h
kept-secret n (err e) c new h = refl

All-rebase :
    (n : Account) (c c' : AppConfig) (xs : List Save)
    → secret_of n c' ≡ secret_of n c
    → All (λ x. secret_of n x.settings ≡ secret_of n c) xs
    → All (λ x. secret_of n x.settings ≡ secret_of n c') xs
All-rebase n c c' [] e h = tt
All-rebase n c c' (x ∷ xs) e h = (h.0 ∙ sym e, All-rebase n c c' xs e h.1)

-- A secret that the user never changes is never written: whatever settings are stored, with or without
-- success, its item stays as it is in the keychain, also if the secret could not be read before.
pub saves-untouched :
    (t : Toml) (n : Account) (xs : List Save) (c : AppConfig) (s : Store)
    → All (λ x. secret_of n x.settings ≡ secret_of n c) xs
    → item n (saves t xs c s).1.keychain ≡ item n s.keychain
unfolding saves
saves-untouched t n [] c s h = refl
saves-untouched t n (x ∷ xs) c s h =
    let y = store_settings t x.disk x.answers c x.settings s in
    let c' = if is_ok y.1 then x.settings else c in
    let first =
      ap (item n) (store_settings-keychain t x.disk x.answers c x.settings s)
      ∙ save_secrets-untouched x.answers n c x.settings s.keychain h.0 in
    saves-untouched t n xs c' y.0 (All-rebase n c c' xs (kept-secret n y.1 c x.settings h.0) h.1)
    ∙ first
