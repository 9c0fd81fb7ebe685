-- ===== src/Base/Raising.antt =====
-- Results of pure code that may raise. `do` blocks over them take `◌>>=◌` from this module.
use papertrail.Base.Tests.{if◌then◌else◌}
use mathlib.Core.Path.{◌≡◌, subst}
use mathlib.Core.Bool.{Bool, true, false}

-- The exceptions that the modelled code raises, or that it lets through from a library.
pub data Error : Type 0 where
  does_not_exist : Error
  stripe_error : Error
  invalid_request : Error
  not_owner : Error
  self_share : Error
  rate_unavailable : Error
  bulk_limit_exceeded : Error
  integrity_error : Error
  value_error : Error
  api_error : Error

pub data Result {ℓ} (A : Type ℓ) : Type ℓ where
  ok : A → Result A
  raised : Error → Result A

abbrev pub is_ok {ℓ} : {A : Type ℓ} → Result A → Bool
is_ok (ok _) = true
is_ok (raised _) = false

infixl 5 ◌>>=◌ ◌>>◌
abbrev pub ◌>>=◌ {ℓ κ} : {A : Type ℓ} {B : Type κ} → Result A → (A → Result B) → Result B
ok a >>= f = f a
raised e >>= f = raised e

abbrev pub ◌>>◌ {ℓ} : {B : Type ℓ} → Result (Unit {0}) → Result B → Result B
m >> k = m >>= λ _. k

abbrev pub raise_if : Bool → Error → Result (Unit {0})
raise_if c e = if c then raised e else ok tt

-- What holds of the value, if there is one.
abbrev pub AllOk {ℓ κ} : {A : Type ℓ} → (A → Type κ) → Result A → Type κ
AllOk P (ok a) = P a
AllOk P (raised e) = Unit

pub AllOk-bind {ℓ κ ν μ} :
    {A : Type ℓ} {B : Type κ} (P : A → Type ν) (Q : B → Type μ) (m : Result A) (f : A → Result B)
    → AllOk P m
    → ((a : A) → P a → AllOk Q (f a))
    → AllOk Q (m >>= f)
AllOk-bind P Q (ok a) f h step = step a h
AllOk-bind P Q (raised e) f h step = tt

pub AllOk-any {ℓ} : {A : Type ℓ} (m : Result A) → AllOk (λ a. Unit {0}) m
AllOk-any (ok a) = tt
AllOk-any (raised e) = tt

pub AllOk-ok {ℓ κ} :
    {A : Type ℓ} (P : A → Type κ) (m : Result A) {a : A} → m ≡ ok a → AllOk P m → P a
AllOk-ok P m e h = subst (AllOk P) e h

pub AllOk-all {ℓ κ} : {A : Type ℓ} (P : A → Type κ) (m : Result A) → ((a : A) → P a) → AllOk P m
AllOk-all P (ok a) h = h a
AllOk-all P (raised e) h = tt

pub AllOk-weaken {ℓ κ ν} :
    {A : Type ℓ} (P : A → Type κ) (Q : A → Type ν) (m : Result A)
    → ((a : A) → P a → Q a)
    → AllOk P m
    → AllOk Q m
AllOk-weaken P Q (ok a) f h = f a h
AllOk-weaken P Q (raised e) f h = tt
