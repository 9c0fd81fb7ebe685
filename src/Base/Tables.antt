-- ===== src/Base/Tables.antt =====
-- A database table as a list of rows, and what the ORM's query sets do to it: `filter(...)`,
-- `filter(...).first()`, `filter(...).exists()` and `filter(...).update(...)`.
use Prim.Native.Nat.{ℕ}
use mathlib.Core.Path.{◌≡◌, refl}
use mathlib.Core.Bool.{Bool, true, false, ◌&&◌, ◌||◌}
use mathlib.Core.Option.{Option, none, some}
use mathlib.Core.Option
use mathlib.Core.Logic.{inl, inr}
use mathlib.Core.List.{List, [], ◌∷◌}
use native.Mathlib.Omega.{arith}
use papertrail.Base.Tests.{if◌then◌else◌, ◌==◌, ltb, Bool-cases}
use papertrail.Base.Lists.{All}

module _ {ℓ} {A : Type ℓ} where
  unfoldable pub filter : (A → Bool) → List A → List A
  filter p [] = []
  filter p (x ∷ xs) = let rest = filter p xs in if p x then x ∷ rest else rest

  unfoldable pub first : (A → Bool) → List A → Option A
  first p [] = none
  first p (x ∷ xs) = let rest = first p xs in if p x then some x else rest

  unfoldable pub exists : (A → Bool) → List A → Bool
  exists p [] = false
  exists p (x ∷ xs) = p x || exists p xs

  unfoldable pub update : (A → Bool) → (A → A) → List A → List A
  update p f [] = []
  update p f (x ∷ xs) = (if p x then f x else x) ∷ update p f xs

  unfoldable pub remove : (A → Bool) → List A → List A
  remove p [] = []
  remove p (x ∷ xs) = let rest = remove p xs in if p x then rest else x ∷ rest

-- `filter(...).order_by("-key").first()`; of rows with one key, the first in the table.
newer {ℓ} : {A : Type ℓ} → (A → ℕ) → A → Option A → Option A
newer key x none = some x
newer key x (some y) = if ltb (key x) (key y) then some y else some x

unfoldable pub latest {ℓ} : {A : Type ℓ} → (A → ℕ) → (A → Bool) → List A → Option A
unfolding newer
latest key p [] = none
latest key p (x ∷ xs) = let best = latest key p xs in if p x then newer key x best else best

-- `x in xs`, on primary keys.
unfoldable pub contains : ℕ → List ℕ → Bool
contains k [] = false
contains k (x ∷ xs) = k == x || contains k xs

module _ {ℓ} {A : Type ℓ} where
  pub first_holds : (p : A → Bool) (xs : List A) {x : A} → first p xs ≡ some x → p x ≡ true
  unfolding first
  first_holds p [] h = cc
  first_holds p (y ∷ ys) {x} h = ground (arith, first_holds p ys {x = x})

  -- The row that a query finds after an update that leaves the queried columns alone.
  pub first-update :
      (p q : A → Bool) (f : A → A) (xs : List A)
      → ((x : A) → p (f x) ≡ p x)
      → first p (update q f xs) ≡ Option.map (λ x. if q x then f x else x) (first p xs)
  unfolding first update
  first-update p q f [] keep = refl
  first-update p q f (x ∷ xs) keep = ground (arith, keep x, first-update p q f xs keep)

  -- An update whose filter finds no row changes nothing.
  pub update-none :
      (q : A → Bool) (f : A → A) (xs : List A) → first q xs ≡ none → update q f xs ≡ xs
  unfolding first update
  update-none q f [] h = refl
  update-none q f (x ∷ xs) h = ground (arith, update-none q f xs)

  pub All-update {κ} :
      (P : A → Type κ) (q : A → Bool) (f : A → A) (xs : List A)
      → ((x : A) → q x ≡ true → P x → P (f x))
      → All P xs
      → All P (update q f xs)
  unfolding update
  All-update P q f [] step h = tt
  All-update P q f (x ∷ xs) step (px, h) = elim (Bool-cases (q x)) [
    | inl e ↦ rw e (step x e px, All-update P q f xs step h)
    | inr e ↦ rw e (px, All-update P q f xs step h)
  ]

module _ {ℓ} {A : Type ℓ} where
  -- An update that leaves the queried columns alone finds as many rows.
  pub exists-update :
      (p q : A → Bool) (f : A → A) (xs : List A)
      → ((x : A) → p (f x) ≡ p x)
      → exists p (update q f xs) ≡ exists p xs
  unfolding exists update
  exists-update p q f [] keep = refl
  exists-update p q f (x ∷ xs) keep = ground (arith, keep x, exists-update p q f xs keep)

  -- The first row of a query, updated, is a row that the new columns find.
  pub exists-update-first :
      (p q r : A → Bool) (f : A → A) (xs : List A) (x : A)
      → first p xs ≡ some x
      → q x ≡ true
      → r (f x) ≡ true
      → exists r (update q f xs) ≡ true
  unfolding exists update first
  exists-update-first p q r f [] x e hq hr = cc
  exists-update-first p q r f (y ∷ ys) x e hq hr = ground (arith, exists-update-first p q r f ys x)

  pub exists-first-none : (p : A → Bool) (xs : List A) → first p xs ≡ none → exists p xs ≡ false
  unfolding exists first
  exists-first-none p [] e = refl
  exists-first-none p (x ∷ xs) e = ground (arith, exists-first-none p xs)

  pub exists-first-some :
      (p r : A → Bool) (xs : List A) (x : A) → first p xs ≡ some x → r x ≡ true → exists r xs ≡ true
  unfolding exists first
  exists-first-some p r [] x e h = cc
  exists-first-some p r (y ∷ ys) x e h = ground (arith, exists-first-some p r ys x)

  -- A query that is narrower than one without rows has no rows.
  pub exists_narrow :
      (p r : A → Bool) (xs : List A)
      → ((x : A) → r x ≡ true → p x ≡ true)
      → exists p xs ≡ false
      → exists r xs ≡ false
  unfolding exists
  exists_narrow p r [] sub e = refl
  exists_narrow p r (x ∷ xs) sub e = ground (arith, sub x, exists_narrow p r xs sub)

pub All-filter {ℓ} : {A : Type ℓ} (q : A → Bool) (xs : List A) → All (λ x. q x ≡ true) (filter q xs)
unfolding filter
All-filter q [] = tt
All-filter q (x ∷ xs) = elim (Bool-cases (q x)) [
  | inl e ↦ rw e (e, All-filter q xs)
  | inr e ↦ rw e (All-filter q xs)
]

pub exists-update_wide :
    {A : Type 0} (p q : A → Bool) (f : A → A) (xs : List A)
    → ((x : A) → p x ≡ true → p (f x) ≡ true)
    → exists p xs ≡ true
    → exists p (update q f xs) ≡ true
unfolding exists update
exists-update_wide p q f [] keep h = cc
exists-update_wide p q f (x ∷ xs) keep h = ground (arith, keep x, exists-update_wide p q f xs keep)

pub exists-All :
    {A : Type 0} (p q : A → Bool) (xs : List A)
    → exists p xs ≡ true
    → All (λ x. q x ≡ true) xs
    → exists (λ x. p x && q x) xs ≡ true
unfolding exists
exists-All p q [] h a = cc
exists-All p q (x ∷ xs) h (ax, a) = ground (arith, exists-All p q xs)
