-- ===== src/Base/Invariants.antt =====
-- Invariants of actions, one rule for each way to build an action.
use mathlib.Core.Bool.{Bool, true, false}
use mathlib.Core.List.{List, [], ◌∷◌}
use papertrail.Base.Tests.{if◌then◌else◌}
use papertrail.Base.Raising.{Error, Result, ok, raised}
use papertrail.Base.Actions.{Action, pure, raise, gets, lift, ◌>>=◌, attempt, swallow, for_each}

-- `m` keeps `P`, whether it returns or raises.
pub record Keeps {S A : Type 0} (P : S → Type 0) (m : Action S A) : Type 0 where
  pub at : (s : S) → P s → P (m s).1

module _ {S A : Type 0} {P : S → Type 0} where
  pub Keeps-pure : (a : A) → Keeps P (pure a)
  Keeps-pure a = record { at = λ s h. h }

  pub Keeps-raise : (e : Error) → Keeps P (raise {A = A} e)
  Keeps-raise e = record { at = λ s h. h }

  pub Keeps-lift : (r : Result A) → Keeps P (lift r)
  Keeps-lift r = record { at = λ s h. h }

  pub Keeps-gets : (f : S → A) → Keeps P (gets f)
  Keeps-gets f = record { at = λ s h. h }

  pub Keeps-if :
      (b : Bool) (m n : Action S A) → Keeps P m → Keeps P n → Keeps P (if b then m else n)
  Keeps-if true m n km kn = km
  Keeps-if false m n km kn = kn

module _ {S A B : Type 0} {P : S → Type 0} where
  rest_at :
      (f : A → Action S B) (r : Result A) (s : S)
      → ((a : A) → Keeps P (f a))
      → P s
      → P (elim r as (λ _. Result B × S) [ ok a ↦ f a s | raised e ↦ (raised e, s) ]).1
  rest_at f (ok a) s kf h = (kf a).at s h
  rest_at f (raised e) s kf h = h

  pub Keeps-bind :
      (m : Action S A) (f : A → Action S B)
      → Keeps P m
      → ((a : A) → Keeps P (f a))
      → Keeps P (m >>= f)
  Keeps-bind m f km kf = record { at = λ s h. rest_at f (m s).0 (m s).1 kf (km.at s h) }

module _ {S : Type 0} {P : S → Type 0} where
  pub Keeps-attempt : (m : Action S (Unit {0})) → Keeps P m → Keeps P (attempt m)
  Keeps-attempt m km = record { at = λ s h. km.at s h }

  pub Keeps-swallow : (m : Action S (Unit {0})) → Keeps P m → Keeps P (swallow m)
  Keeps-swallow m km = record { at = λ s h. km.at s h }

module _ {S A : Type 0} {P : S → Type 0} where
  pub Keeps-for_each :
      (xs : List A) (body : A → Action S (Unit {0}))
      → ((x : A) → Keeps P (body x))
      → Keeps P (for_each xs body)
  unfolding for_each
  Keeps-for_each [] body kb = Keeps-pure tt
  Keeps-for_each (x ∷ xs) body kb =
      Keeps-bind (body x) (λ _. for_each xs body) (kb x) (λ _. Keeps-for_each xs body kb)

pub ruleset keeps_rules = (
  Keeps-pure, Keeps-raise, Keeps-lift, Keeps-gets, Keeps-if, Keeps-bind, Keeps-attempt,
  Keeps-swallow, Keeps-for_each,
)
