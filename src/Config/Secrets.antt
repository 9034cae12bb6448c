-- ===== src/Config/Secrets.antt =====
-- What the keychain of src/config/keychain.rs holds after the secrets were written.
use proxybear.Base.{
  ℕ, Option-cases, ◌≢◌, Result-cases, ◌≡◌, ◌⊎◌, inl, inr, refl, sym, ◌∙◌, ap, Bool-cases, Option,
  none, List, [], ◌∷◌, Text, text_eq, text_eq→eq, text_eq_refl, Result, ok, err, Error, All,
}
use proxybear.Base.Utf8.Encode.{IsScalar, from_utf8-as_bytes}
use proxybear.Config.{AppConfig}
use proxybear.Config.Keychain.{
  Account, ssh_password, key_passphrase, Answers, Keychain, item, put, item_of, get, set,
}
use proxybear.Config.Store.{set_changed, save_secrets, and_then, set_both}

abbrev pub secret_of : Account → AppConfig → Text
secret_of ssh_password c = c.ssh_password
secret_of key_passphrase c = c.key_password

-- The keychain holds the secrets of the settings.
abbrev pub Holds : AppConfig → Keychain → Type 0
Holds c k = (n : Account) → item n k ≡ item_of (secret_of n c)

-- The secrets are texts that a Rust `String` can hold.
abbrev pub AreTexts : AppConfig → Type 0
AreTexts c = (n : Account) → All IsScalar (secret_of n c)

get-read :
    (a : Answers) (n : Account) (k : Keychain) (i : Option (List ℕ)) (s : Text)
    → a.read_fails n ≡ none
    → item n k ≡ item_of s
    → All IsScalar s
    → get a n k ≡ ok s
unfolding get
get-read a n k i [] r e h = rw (r, e, get) refl
get-read a n k i (c ∷ s) r e h = rw (r, e, get) (rw (from_utf8-as_bytes (c ∷ s) h) refl)

-- What is held is read.
pub get-Holds :
    (a : Answers) (c : AppConfig) (k : Keychain) (n : Account)
    → a.read_fails n ≡ none
    → Holds c k
    → AreTexts c
    → get a n k ≡ ok (secret_of n c)
get-Holds a c k n r h t = get-read a n k none (secret_of n c) r (h n) (t n)

-- A write leaves the keychain alone, or it writes the item.
abbrev Wrote : Account → Text → Keychain → Keychain × Result (Unit {0}) → Type 0
Wrote n s k x = ((e : Error) × (x ≡ (k, err e))) ⊎ (x ≡ (put n (item_of s) k, ok tt))

set-Wrote : (a : Answers) (n : Account) (s : Text) (k : Keychain) → Wrote n s k (set a n s k)
unfolding set
set-Wrote a n s k = elim (Option-cases (a.write_fails n)) [
  | inl e ↦ rw (e, set) (inr refl)
  | inr (x, e) ↦ rw (e, set) (inl (_, refl))
]

set_changed-same :
    (a : Answers) (n : Account) (before now : Text) (k : Keychain)
    → now ≡ before
    → set_changed a n before now k ≡ (k, ok tt)
unfolding set_changed
set_changed-same a n before now k e = rw e (rw (text_eq_refl before, set_changed) refl)

set_changed-Wrote :
    (a : Answers) (n : Account) (before now : Text) (k : Keychain)
    → ((now ≡ before) × (set_changed a n before now k ≡ (k, ok tt)))
      ⊎ Wrote n now k (set_changed a n before now k)
unfolding set_changed
set_changed-Wrote a n before now k = elim (Bool-cases (text_eq now before)) [
  | inl e ↦ inl (text_eq→eq now before e, rw (e, set_changed) refl)
  | inr e ↦ inr (rw (e, set_changed) (set-Wrote a n now k))
]

put-item :
    (n m : Account) (s : Text) (k : Keychain) (x : Keychain × Result (Unit {0}))
    → x ≡ (put n (item_of s) k, ok tt)
    → (item m x.0 ≡ item m k) ⊎ ((n ≡ m) × (item m x.0 ≡ item_of s))
put-item ssh_password ssh_password s k x f = inr (refl, ap (λ y. y.0.password) f)
put-item ssh_password key_passphrase s k x f = inl (ap (λ y. y.0.phrase) f)
put-item key_passphrase ssh_password s k x f = inl (ap (λ y. y.0.password) f)
put-item key_passphrase key_passphrase s k x f = inr (refl, ap (λ y. y.0.phrase) f)

put_self :
    (n : Account) (s : Text) (k : Keychain) (x : Keychain × Result (Unit {0}))
    → x ≡ (put n (item_of s) k, ok tt)
    → item n x.0 ≡ item_of s
put_self ssh_password s k x f = ap (λ y. y.0.password) f
put_self key_passphrase s k x f = ap (λ y. y.0.phrase) f

pub ok-err : (done : Result (Unit {0})) (e : Error) → done ≡ ok tt → done ≢ err e
ok-err done e g h = cc

-- A secret that has not changed keeps its item.
set_changed-untouched :
    (a : Answers) (n m : Account) (before now : Text) (k : Keychain)
    → (n ≡ m → now ≡ before)
    → item m (set_changed a n before now k).0 ≡ item m k
set_changed-untouched a n m before now k h = elim (set_changed-Wrote a n before now k) [
  | inl (e, f) ↦ ap (λ x. item m x.0) f
  | inr (inl (e, f)) ↦ ap (λ x. item m x.0) f
  | inr (inr f) ↦ elim (put-item n m now k _ f) [
    | inl e ↦ e
    | inr (e, g) ↦ ap (λ x. item m x.0) (set_changed-same a n before now k (h e))
  ]
]

set_changed-stored :
    (a : Answers) (n : Account) (before now : Text) (k : Keychain)
    → item n k ≡ item_of before
    → (set_changed a n before now k).1 ≡ ok tt
    → item n (set_changed a n before now k).0 ≡ item_of now
set_changed-stored a n before now k h r = elim (set_changed-Wrote a n before now k) [
  | inl (e, f) ↦ ap (λ x. item n x.0) f ∙ (h ∙ ap item_of (sym e))
  | inr (inl (e, f)) ↦ absurd (ok-err _ e r (ap (λ x. x.1) f))
  | inr (inr f) ↦ put_self n now k _ f
]

-- Two writes, the second if the first succeeds.
module _ (x : Keychain × Result (Unit {0})) (next : Keychain → Keychain × Result (Unit {0})) where
  and_then-item :
      (m : Account) (i : Option (List ℕ))
      → item m x.0 ≡ i
      → item m (next x.0).0 ≡ i
      → item m (and_then x next).0 ≡ i
  and_then-item m i h g = elim (Result-cases x.1) [
    | inl (u, e) ↦ rw (e, and_then) g
    | inr (u, e) ↦ rw (e, and_then) h
  ]

  and_then-ok : (and_then x next).1 ≡ ok tt → (x.1 ≡ ok tt) × (and_then x next ≡ next x.0)
  and_then-ok h = elim (Result-cases x.1) [
    | inl (u, e) ↦ (e, rw (e, and_then) refl)
    | inr (u, e) ↦ absurd (ok-err _ u h (rw (e, and_then) refl))
  ]

same :
    (n m : Account) (old new : AppConfig)
    → secret_of m new ≡ secret_of m old
    → n ≡ m
    → secret_of n new ≡ secret_of n old
same n m old new h e = rw e h

pub save_secrets-untouched :
    (a : Answers) (m : Account) (old new : AppConfig) (k : Keychain)
    → secret_of m new ≡ secret_of m old
    → item m (save_secrets a old new k).0 ≡ item m k
unfolding save_secrets
save_secrets-untouched a m old new k h =
    let x = set_changed a ssh_password old.ssh_password new.ssh_password k in
    let e =
      set_changed-untouched a ssh_password m old.ssh_password new.ssh_password k
        (same ssh_password m old new h) in
    and_then-item x (set_changed a key_passphrase old.key_password new.key_password) m (item m k) e
      (set_changed-untouched a key_passphrase m old.key_password new.key_password x.0
          (same key_passphrase m old new h)
        ∙ e)

both_stored :
    (a : Answers) (old new : AppConfig) (k : Keychain)
    → Holds old k
    → let x = set_changed a ssh_password old.ssh_password new.ssh_password k in
      let y = set_changed a key_passphrase old.key_password new.key_password x.0 in
      x.1 ≡ ok tt → y.1 ≡ ok tt → Holds new y.0
both_stored a old new k h e f ssh_password =
    let x = set_changed a ssh_password old.ssh_password new.ssh_password k in
    set_changed-untouched a key_passphrase ssh_password old.key_password new.key_password x.0
      (λ g. cc)
    ∙ set_changed-stored a ssh_password old.ssh_password new.ssh_password k (h ssh_password) e
both_stored a old new k h e f key_passphrase =
    let x = set_changed a ssh_password old.ssh_password new.ssh_password k in
    let kept =
      set_changed-untouched a ssh_password key_passphrase old.ssh_password new.ssh_password k
        (λ g. cc) in
    set_changed-stored a key_passphrase old.key_password new.key_password x.0
      (kept ∙ h key_passphrase) f

pub save_secrets-Holds :
    (a : Answers) (old new : AppConfig) (k : Keychain)
    → Holds old k
    → (save_secrets a old new k).1 ≡ ok tt
    → Holds new (save_secrets a old new k).0
unfolding save_secrets
save_secrets-Holds a old new k h r n =
    let x = set_changed a ssh_password old.ssh_password new.ssh_password k in
    let f = set_changed a key_passphrase old.key_password new.key_password in
    let (e, g) = and_then-ok x f r in
    rw g (both_stored a old new k h e (sym (ap (λ y. y.1) g) ∙ r) n)

set-stored :
    (a : Answers) (n : Account) (s : Text) (k : Keychain)
    → (set a n s k).1 ≡ ok tt
    → set a n s k ≡ (put n (item_of s) k, ok tt)
set-stored a n s k r = elim (set-Wrote a n s k) [
  | inl (e, f) ↦ absurd (ok-err _ e r (ap (λ x. x.1) f))
  | inr f ↦ f
]

both_put :
    (c : AppConfig) (k : Keychain)
    → Holds c
        (put key_passphrase (item_of c.key_password) (put ssh_password (item_of c.ssh_password) k))
both_put c k ssh_password = refl
both_put c k key_passphrase = refl

pub set_both-Holds :
    (a : Answers) (c : AppConfig) (k : Keychain)
    → (set_both a c k).1 ≡ ok tt
    → Holds c (set_both a c k).0
unfolding set_both
set_both-Holds a c k r n =
    let x = set a ssh_password c.ssh_password k in
    let (e, g) = and_then-ok x (set a key_passphrase c.key_password) r in
    let first = set-stored a ssh_password c.ssh_password k e in
    let second = set-stored a key_passphrase c.key_password x.0 (sym (ap (λ y. y.1) g) ∙ r) in
    rw g (rw second (rw first (both_put c k n)))
