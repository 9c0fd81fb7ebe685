-- ===== src/Base/Actions.antt =====
-- A method that changes a state and may raise. What was written before a raise stays written, so
-- the state comes back beside the error too; a transaction is what rolls it back.
use mathlib.Core.Bool.{Bool}
use mathlib.Core.List.{List, [], ◌∷◌}
use papertrail.Base.Raising.{Error, Result, ok, raised, is_ok}

abbrev pub Action : Type 0 → Type 0 → Type 0
Action S A = S → Result A × S

module _ {S A : Type 0} where
  abbrev pub pure : A → Action S A
  pure a s = (ok a, s)

  abbrev pub raise : Error → Action S A
  raise e s = (raised e, s)

  abbrev pub gets : (S → A) → Action S A
  gets f s = (ok (f s), s)

  abbrev pub lift : Result A → Action S A
  lift r s = (r, s)

abbrev pub modify : {S : Type 0} → (S → S) → Action S (Unit {0})
modify f s = (ok tt, f s)

infixl 5 ◌>>=◌ ◌>>◌
abbrev pub ◌>>=◌ : {S A B : Type 0} → Action S A → (A → Action S B) → Action S B
◌>>=◌ m f s = let (r, s') = m s in elim r [ ok a ↦ f a s' | raised e ↦ (raised e, s') ]

abbrev pub ◌>>◌ : {S A B : Type 0} → Action S A → Action S B → Action S B
m >> k = m >>= λ _. k

-- `try: m except Exception:` with the branch taken; what `m` wrote before a raise stays.
abbrev pub attempt : {S : Type 0} → Action S (Unit {0}) → Action S Bool
attempt m s = let (r, s') = m s in (ok (is_ok r), s')

-- The same, where the handler only logs.
abbrev pub swallow : {S : Type 0} → Action S (Unit {0}) → Action S (Unit {0})
swallow m s = (ok tt, (m s).1)

-- The body of a `for` loop, once for each element; a raise ends the loop.
unfoldable pub for_each : {S A : Type 0} → List A → (A → Action S (Unit {0})) → Action S (Unit {0})
for_each [] body = pure tt
for_each (x ∷ xs) body = body x >> for_each xs body
