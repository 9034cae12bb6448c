-- ===== src/Base/Results.antt =====
-- `anyhow::Result`: an error is the chain of its messages, the outermost context first.
use mathlib.Core.Path.{◌≡◌, refl}
use mathlib.Core.Logic.{◌⊎◌, inl, inr}
use mathlib.Core.Bool.{Bool, true, false}
use mathlib.Core.List.{List, [], ◌∷◌}
use mathlib.Core.Option.{Option, none, some}
use proxybear.Base.Texts.{Text, codes, join}

abbrev pub Error : Type 0
Error = List Text

pub data Result {ℓ} (A : Type ℓ) : Type ℓ where
  ok : A → Result A
  err : Error → Result A

-- `bail!(message)`.
abbrev pub bail {ℓ} : {A : Type ℓ} → Text → Result A
bail message = err (message ∷ [])

-- `.context(message)`.
abbrev pub context {ℓ} : {A : Type ℓ} → Text → Result A → Result A
context message (ok a) = ok a
context message (err e) = err (message ∷ e)

-- `option.context(message)`.
abbrev pub or_bail {ℓ} : {A : Type ℓ} → Text → Option A → Result A
or_bail message none = err (message ∷ [])
or_bail message (some a) = ok a

infixl 5 ◌>>=◌
-- The `?` operator.
abbrev pub ◌>>=◌ {ℓ κ} : {A : Type ℓ} {B : Type κ} → Result A → (A → Result B) → Result B
◌>>=◌ (err causes) next = err causes
◌>>=◌ (ok value) next = next value

infixl 5 ◌>>◌
-- `first?; then`.
abbrev pub ◌>>◌ {κ} : {B : Type κ} → Result (Unit {0}) → Result B → Result B
◌>>◌ (err causes) later = err causes
◌>>◌ (ok done) later = later

-- `bail!(message)` under a test.
abbrev pub guard : Bool → Text → Result (Unit {0})
guard true message = ok tt
guard false message = err (message ∷ [])

-- `.is_ok()`.
abbrev pub is_ok {ℓ} : {A : Type ℓ} → Result A → Bool
is_ok (ok a) = true
is_ok (err e) = false

-- `.err()`.
abbrev pub error_of {ℓ} : {A : Type ℓ} → Result A → Option Error
error_of (ok a) = none
error_of (err e) = some e

-- `format!("{error:#}")`: the whole chain.
abbrev pub chain_text : Error → Text
chain_text e = join (codes ": ") e

-- `error.to_string()`: the outermost message.
abbrev pub head_text : Error → Text
head_text [] = []
head_text (t ∷ ts) = t

pub Result-cases {ℓ} :
    {A : Type ℓ} (outcome : Result A)
    → ((value : A) × (outcome ≡ ok value)) ⊎ ((causes : Error) × (outcome ≡ err causes))
Result-cases (ok a) = inl (a, refl)
Result-cases (err e) = inr (e, refl)
