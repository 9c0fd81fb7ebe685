-- ===== src/Base/Keys.antt =====
-- Tables whose rows have a key of their own, and updates by the keys of the rows that a query found:
-- `filter(pk__in=[r.pk for r in rows]).update(...)`.
use Prim.Native.Nat.{ℕ}
use mathlib.Core.Path.{◌≡◌, refl}
use mathlib.Core.Bool.{Bool, true, false, ◌&&◌}
use mathlib.Core.Logic.{inl, inr}
use mathlib.Core.List.{List, [], ◌∷◌, map}
use native.Mathlib.Omega.{arith}
use papertrail.Base.Tests.{Bool-cases}
use papertrail.Base.Tables.{filter, update, remove, contains}
use papertrail.Base.Lists.{All}

module _ {ℓ} {A : Type ℓ} (key : A → ℕ) where
  -- No two rows have one key.
  abbrev pub KeysUnique : List A → Type 0
  KeysUnique [] = Unit
  KeysUnique (x ∷ xs) = (contains (key x) (map key xs) ≡ false) × KeysUnique xs

  pub keys-update :
      (q : A → Bool) (f : A → A) (xs : List A)
      → ((x : A) → key (f x) ≡ key x)
      → map key (update q f xs) ≡ map key xs
  unfolding update
  keys-update q f [] keep = refl
  keys-update q f (x ∷ xs) keep = ground (arith, keep x, keys-update q f xs keep)

  contains-filter :
      (k : ℕ) (q : A → Bool) (xs : List A)
      → contains k (map key xs) ≡ false
      → contains k (map key (filter q xs)) ≡ false
  unfolding contains filter
  contains-filter k q [] h = refl
  contains-filter k q (x ∷ xs) h = ground (arith, contains-filter k q xs)

  foreign_key :
      (k : ℕ) (ks : List ℕ) (g : A → A) (xs : List A)
      → contains k (map key xs) ≡ false
      → update (λ y. contains (key y) (k ∷ ks)) g xs ≡ update (λ y. contains (key y) ks) g xs
  unfolding contains update
  foreign_key k ks g [] h = refl
  foreign_key k ks g (x ∷ xs) h = ground (arith, foreign_key k ks g xs)

  -- Updating the rows that a query found, by their keys and after an update of the query's own, is
  -- one update of the query.
  pub update-update_found :
      (q : A → Bool) (f g : A → A) (xs : List A)
      → ((x : A) → key (f x) ≡ key x)
      → KeysUnique xs
      → update (λ y. contains (key y) (map key (filter q xs))) g (update q f xs)
        ≡ update q (λ x. g (f x)) xs
  unfolding contains filter update
  update-update_found q f g [] keep u = refl
  update-update_found q f g (x ∷ xs) keep (ux, u) = elim (Bool-cases (q x)) [
    | inl e ↦ ground (
      arith,
      keep x,
      foreign_key (key x) (map key (filter q xs)) g (update q f xs)
          (rw (keys-update q f xs keep) ux),
      update-update_found q f g xs keep u,
    )
    | inr e ↦ ground (arith, contains-filter (key x) q xs, update-update_found q f g xs keep u)
  ]

module _ {ℓ} {A : Type ℓ} (key : A → ℕ) where
  foreign_found :
      (k : ℕ) (ks : List ℕ) (r : A → Bool) (xs : List A)
      → contains k (map key xs) ≡ false
      → filter (λ y. contains (key y) (k ∷ ks) && r y) xs
        ≡ filter (λ y. contains (key y) ks && r y) xs
  unfolding contains filter
  foreign_found k ks r [] h = refl
  foreign_found k ks r (x ∷ xs) h = ground (arith, foreign_found k ks r xs)

  -- A query by the keys of the rows that another query found, of which each has a property, and by
  -- that property, finds those rows again.
  pub filter-filter_found :
      (q r : A → Bool) (xs : List A)
      → ((x : A) → q x ≡ true → r x ≡ true)
      → KeysUnique key xs
      → filter (λ y. contains (key y) (map key (filter q xs)) && r y) xs ≡ filter q xs
  unfolding contains filter
  filter-filter_found q r [] sub u = refl
  filter-filter_found q r (x ∷ xs) sub (ux, u) = elim (Bool-cases (q x)) [
    | inl e ↦ ground (
      arith,
      sub x e,
      foreign_found (key x) (map key (filter q xs)) r xs ux,
      filter-filter_found q r xs sub u,
    )
    | inr e ↦ ground (arith, contains-filter key (key x) q xs ux, filter-filter_found q r xs sub u)
  ]

module _ {ℓ} {A : Type ℓ} (key : A → ℕ) where
  pub KeysUnique-update :
      (q : A → Bool) (f : A → A) (xs : List A)
      → ((x : A) → key (f x) ≡ key x)
      → KeysUnique key xs
      → KeysUnique key (update q f xs)
  unfolding update
  KeysUnique-update q f [] keep u = tt
  KeysUnique-update q f (x ∷ xs) keep (ux, u) =
      (ground (arith, keep x, keys-update key q f xs keep), KeysUnique-update q f xs keep u)

  contains-remove :
      (k : ℕ) (q : A → Bool) (xs : List A)
      → contains k (map key xs) ≡ false
      → contains k (map key (remove q xs)) ≡ false
  unfolding contains remove
  contains-remove k q [] h = refl
  contains-remove k q (x ∷ xs) h = ground (arith, contains-remove k q xs)

  pub KeysUnique-remove :
      (q : A → Bool) (xs : List A) → KeysUnique key xs → KeysUnique key (remove q xs)
  unfolding remove
  KeysUnique-remove q [] u = tt
  KeysUnique-remove q (x ∷ xs) (ux, u) = elim (Bool-cases (q x)) [
    | inl e ↦ rw e (KeysUnique-remove q xs u)
    | inr e ↦ rw e (contains-remove (key x) q xs ux, KeysUnique-remove q xs u)
  ]

pub All-remove {ℓ κ} :
    {A : Type ℓ} (P : A → Type κ) (q : A → Bool) (xs : List A) → All P xs → All P (remove q xs)
unfolding remove
All-remove P q [] h = tt
All-remove P q (x ∷ xs) (px, h) = elim (Bool-cases (q x)) [
  | inl e ↦ rw e (All-remove P q xs h)
  | inr e ↦ rw e (px, All-remove P q xs h)
]
