-- ===== src/Plaid/Syncing/Outcomes.antt =====
-- What methods return, and what is left when they raise.
use papertrail.Base.{
  ◌≡◌, refl, false, Result, ok, raised, is_ok, AllOk, AllOk-any, AllOk-all, ◌>>=◌,
}
use papertrail.Database.{World, M, atomic}

-- What a method returns, if it does, whatever world it finds.
abbrev pub Returns : {A : Type 0} → (A → Type 0) → M A → Type 0
Returns P m = (w : World) → AllOk P (m w).0

-- A method that raises in every world.
abbrev pub Raises : {A : Type 0} → M A → Type 0
Raises m = (w : World) → is_ok (m w).0 ≡ false

pub Returns-any : {A : Type 0} (m : M A) → Returns (λ a. Unit {0}) m
Returns-any m w = AllOk-any (m w).0

pub value_after :
    {A B : Type 0} (P : A → Type 0) (Q : B → Type 0) (r : Result A) (w : World) (f : A → M B)
    → AllOk P r
    → ((a : A) → P a → Returns Q (f a))
    → AllOk Q (elim r as (λ _. Result B × World) [ ok a ↦ f a w | raised e ↦ (raised e, w) ]).0
value_after P Q (ok a) w f h k = k a h w
value_after P Q (raised e) w f h k = tt

pub Returns-bind :
    {A B : Type 0} (P : A → Type 0) (Q : B → Type 0) (m : M A) (f : A → M B)
    → Returns P m
    → ((a : A) → P a → Returns Q (f a))
    → Returns Q (m >>= f)
Returns-bind P Q m f h k w = value_after P Q (m w).0 (m w).1 f (h w) k

pub raises_after :
    {A B : Type 0} (P : A → Type 0) (r : Result A) (w : World) (f : A → M B)
    → AllOk P r
    → ((a : A) → P a → is_ok (f a w).0 ≡ false)
    → is_ok (elim r as (λ _. Result B × World) [ ok a ↦ f a w | raised e ↦ (raised e, w) ]).0
      ≡ false
raises_after P (ok a) w f h k = k a h
raises_after P (raised e) w f h k = refl

pub Raises-bind :
    {A B : Type 0} (P : A → Type 0) (m : M A) (f : A → M B)
    → Returns P m
    → ((a : A) → P a → Raises (f a))
    → Raises (m >>= f)
Raises-bind P m f h k w = raises_after P (m w).0 (m w).1 f (h w) λ a p. k a p (m w).1

pub always-Returns : {A : Type 0} (P : A → Type 0) (m : M A) → ((a : A) → P a) → Returns P m
always-Returns P m h w = AllOk-all P (m w).0 h

pub raised_left :
    {A B : Type 0} (r : Result A) (w : World) (f : A → M B)
    → is_ok r ≡ false
    → is_ok (elim r as (λ _. Result B × World) [ ok a ↦ f a w | raised e ↦ (raised e, w) ]).0
      ≡ false
raised_left (ok a) w f h = cc
raised_left (raised e) w f h = refl

pub Raises-left : {A B : Type 0} (m : M A) (f : A → M B) → Raises m → Raises (m >>= f)
Raises-left m f h w = raised_left (m w).0 (m w).1 f (h w)

pub rolled_back :
    {A : Type 0} (r : Result A) (w w' : World)
    → is_ok r ≡ false
    → let (r', w'') = elim r as (λ _. Result A × World) [
      | ok a ↦ (ok a, w')
      | raised e ↦ (raised e, record w' { db = w.db })
    ] in
      (is_ok r' ≡ false) × (w''.db ≡ w.db)
rolled_back (ok a) w w' h = cc
rolled_back (raised e) w w' h = (refl, refl)

-- A block that fails leaves the database as it was.
pub atomic_failed :
    {A : Type 0} (m : M A) (w : World)
    → is_ok (m w).0 ≡ false
    → let (r, w') = atomic m w in (is_ok r ≡ false) × (w'.db ≡ w.db)
atomic_failed m w h = rolled_back (m w).0 w (m w).1 h
