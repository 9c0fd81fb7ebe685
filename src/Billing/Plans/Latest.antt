-- ===== src/Billing/Plans/Latest.antt =====
-- The most recent subscription of a category decides (`_products_by_category` of
-- billing/metadata.py).
use papertrail.Base.{
  ◌≡◌, refl, subst, true, false, ◌&&◌, Option, none, some, List, [], ◌∷◌, arith, inl, inr,
  Bool-cases, All, All-map,
}
use papertrail.Billing.Plans.{
  Category, same_category, Entry, is_earlier, insert_latest, latest_first, winner, Subscriber,
  entries, active_subscriptions,
}

earlier_asym : (a b : Entry) → is_earlier a b ≡ true → is_earlier b a ≡ false
unfolding is_earlier
earlier_asym a b h = ground arith

-- What is not later than something not later.
earlier_trans :
    (a b c : Entry) → is_earlier a b ≡ false → is_earlier b c ≡ false → is_earlier a c ≡ false
unfolding is_earlier
earlier_trans a b c h k = ground arith

module _ (P : Entry → Type 0) where
  insert_latest-All : (x : Entry) (ys : List Entry) → P x → All P ys → All P (insert_latest x ys)
  unfolding insert_latest
  insert_latest-All x [] p h = (p, tt)
  insert_latest-All x (y ∷ ys) p (py, h) = elim (Bool-cases (is_earlier x y)) [
    | inl e ↦ rw e (py, insert_latest-All x ys p h)
    | inr e ↦ rw e (p, (py, h))
  ]

  All-insert_latest : (x : Entry) (ys : List Entry) → All P (insert_latest x ys) → P x × All P ys
  unfolding insert_latest
  All-insert_latest x [] (p, h) = (p, tt)
  All-insert_latest x (y ∷ ys) h = elim (Bool-cases (is_earlier x y)) [
    | inl e ↦
        let same : insert_latest x (y ∷ ys) ≡ y ∷ insert_latest x ys = rw e refl in
        let (py, rest) = subst (All P) same h in
        let (px, pys) = All-insert_latest x ys rest in (px, (py, pys))
    | inr e ↦ let same : insert_latest x (y ∷ ys) ≡ x ∷ y ∷ ys = rw e refl in subst (All P) same h
  ]

IsSorted : List Entry → Type 0
IsSorted [] = Unit
IsSorted (x ∷ xs) = All (λ y. is_earlier x y ≡ false) xs × IsSorted xs

below_later :
    (x y : Entry) (ys : List Entry)
    → is_earlier x y ≡ false
    → All (λ z. is_earlier y z ≡ false) ys
    → All (λ z. is_earlier x z ≡ false) ys
below_later x y ys e h = All-map ys (λ z k. earlier_trans x y z e k) h

insert_latest-IsSorted : (x : Entry) (ys : List Entry) → IsSorted ys → IsSorted (insert_latest x ys)
unfolding insert_latest IsSorted
insert_latest-IsSorted x [] h = (tt, tt)
insert_latest-IsSorted x (y ∷ ys) (hy, h) = elim (Bool-cases (is_earlier x y)) [
  | inl e ↦ rw e (
    insert_latest-All (λ z. is_earlier y z ≡ false) x ys (earlier_asym x y e) hy,
    insert_latest-IsSorted x ys h,
  )
  | inr e ↦ rw e ((e, below_later x y ys e hy), (hy, h))
]

latest_first-IsSorted : (es : List Entry) → IsSorted (latest_first es)
unfolding latest_first IsSorted
latest_first-IsSorted [] = tt
latest_first-IsSorted (e ∷ es) =
    insert_latest-IsSorted e (latest_first es) (latest_first-IsSorted es)

All-latest_first : (P : Entry → Type 0) (es : List Entry) → All P (latest_first es) → All P es
unfolding latest_first
All-latest_first P [] h = tt
All-latest_first P (e ∷ es) h =
    let (p, rest) = All-insert_latest P e (latest_first es) h in (p, All-latest_first P es rest)

-- The winner of a category: an entry of it, and no entry of it is later; or none, when there is no
-- entry of it.
abbrev pub IsLatest : Category → List Entry → Option Entry → Type 0
IsLatest category es none = All (λ x. same_category x.meta.category category ≡ false) es
IsLatest category es (some e) =
    (same_category e.meta.category category ≡ true)
    × All (λ x. (same_category x.meta.category category && is_earlier e x) ≡ false) es

earlier_irrefl : (e : Entry) → is_earlier e e ≡ false
unfolding is_earlier
earlier_irrefl e = ground arith

-- An entry of another category makes no difference.
IsLatest-skip :
    (category : Category) (e : Entry) (es : List Entry) (o : Option Entry)
    → same_category e.meta.category category ≡ false
    → IsLatest category es o
    → IsLatest category (e ∷ es) o
IsLatest-skip category e es none k h = (k, h)
IsLatest-skip category e es (some x) k (c, h) = (c, (ground arith, h))

winner-IsLatest :
    (category : Category) (es : List Entry)
    → IsSorted es
    → IsLatest category es (winner category es)
unfolding winner IsSorted
winner-IsLatest category [] h = tt
winner-IsLatest category (e ∷ es) (he, h) =
    elim (Bool-cases (same_category e.meta.category category)) [
      | inl k ↦
          rw k (k, (ground (arith, earlier_irrefl e), All-map es (λ x n. ground (arith, n)) he))
      | inr k ↦
          rw k (IsLatest-skip category e es (winner category es) k (winner-IsLatest category es h))
    ]

unsorted :
    (category : Category) (es : List Entry) (o : Option Entry)
    → IsLatest category (latest_first es) o
    → IsLatest category es o
unsorted category es none h = All-latest_first _ es h
unsorted category es (some e) (c, h) = (c, All-latest_first _ es h)

-- Of the products of a category to which a user is actively subscribed, that of the most recently
-- created subscription wins, and of two that were created at one time that with the greater key.
pub winner-latest_first :
    (category : Category) (u : Subscriber)
    → let es = entries (active_subscriptions u) in
      IsLatest category es (winner category (latest_first es))
winner-latest_first category u =
    let es = entries (active_subscriptions u) in
    unsorted category es _ (winner-IsLatest category (latest_first es) (latest_first-IsSorted es))
