-- ===== src/Records/Matching/Best.antt =====
-- What the search for a match returns (`find_best_plaid_match` and
-- `find_document_matches_for_plaid` of records/matching.py).
use papertrail.Base.{
  ◌≡◌, refl, sym, subst, ◌≤◌, ◌<◌, true, ◌⊎◌, Option, none, some, List, [], ◌∷◌, arith, inl, inr,
  Bool-cases, leb, ltb, if◌then◌else◌, All, All-map, All-filter, All-take,
}
use papertrail.Database.{Db}
use papertrail.Records.Model.{Record}
use papertrail.Records.Matching.{
  Ratio, calculate_match_score, is_candidate, candidates, insert_newest, newest_first, Best,
  best_of, find_best_plaid_match,
}

module _ (ratio : Ratio) (r : Record) where
  -- The score that is kept is the match's, and the match is one of those that have a property.
  HasScore : (Record → Type 0) → Best → Type 0
  HasScore P (none, score) = score ≡ 0
  HasScore P (some c, score) = (calculate_match_score ratio r c ≡ score) × P c

  best_of-HasScore :
      (P : Record → Type 0) (cs : List Record) (best : Best)
      → All P cs
      → HasScore P best
      → HasScore P (best_of ratio r cs best)
  unfolding best_of HasScore
  best_of-HasScore P [] best pc h = h
  best_of-HasScore P (c ∷ cs) best (p, pc) h =
      let score = calculate_match_score ratio r c in
      elim (Bool-cases (ltb best.1 score)) [
        | inl e ↦ elim (Bool-cases (leb 95 score)) [
          | inl k ↦ rw (e, k) (refl, p)
          | inr k ↦ rw (e, k) (best_of-HasScore P cs (some c, score) pc (refl, p))
        ]
        | inr e ↦ rw e (best_of-HasScore P cs best pc h)
      ]

  best_of_grows : (cs : List Record) (best : Best) → best.1 ≤ (best_of ratio r cs best).1
  unfolding best_of
  best_of_grows [] best = omega arith
  best_of_grows (c ∷ cs) best =
      ground
        (arith, best_of_grows cs best, best_of_grows cs (some c, calculate_match_score ratio r c))

  -- Below 95 no candidate scores more.
  best_of_maximal :
      (cs : List Record) (best : Best)
      → (best_of ratio r cs best).1 < 95
      → All (λ c. calculate_match_score ratio r c ≤ (best_of ratio r cs best).1) cs
  unfolding best_of
  best_of_maximal [] best h = tt
  best_of_maximal (c ∷ cs) best h =
      let score = calculate_match_score ratio r c in
      let AtMost : Best → Type 0 = λ b. All (λ x. calculate_match_score ratio r x ≤ b.1) (c ∷ cs) in
      elim (Bool-cases (ltb best.1 score)) [
        | inl e ↦ elim (Bool-cases (leb 95 score)) [
          | inl k ↦ ground arith
          | inr k ↦
              let same : best_of ratio r (c ∷ cs) best ≡ best_of ratio r cs (some c, score) =
                rw (e, k) refl in
              subst AtMost (sym same) (
                best_of_grows cs (some c, score),
                best_of_maximal cs (some c, score) (subst (λ b. b.1 < 95) same h),
              )
        ]
        | inr e ↦
            let same : best_of ratio r (c ∷ cs) best ≡ best_of ratio r cs best = rw e refl in
            let grows = best_of_grows cs best in
            subst AtMost (sym same)
              (ground (arith, grows), best_of_maximal cs best (subst (λ b. b.1 < 95) same h))
      ]

  -- What is found: a candidate that scores at least 55, and at least as much as every other one
  -- unless it scores at least 95; or nothing, when every candidate scores less than 55.
  pub FindsBest : List Record → Option Record → Type 0
  FindsBest cs none = All (λ c. calculate_match_score ratio r c < 55) cs
  FindsBest cs (some m) =
      (is_candidate true r m ≡ true)
      × (55 ≤ calculate_match_score ratio r m)
      × ((95 ≤ calculate_match_score ratio r m)
          ⊎ All (λ c. calculate_match_score ratio r c ≤ calculate_match_score ratio r m) cs)

  found_best :
      (cs : List Record) (best : Best)
      → HasScore (λ c. is_candidate true r c ≡ true) best
      → (best.1 < 95 → All (λ c. calculate_match_score ratio r c ≤ best.1) cs)
      → FindsBest cs (if leb 55 best.1 then best.0 else none)
  unfolding HasScore FindsBest
  found_best cs (none, score) e all = elim (Bool-cases (leb 55 score)) [
    | inl k ↦ ground arith
    | inr k ↦ rw k (All-map cs (λ c h. omega (arith, h, e)) (all (omega (arith, e))))
  ]
  found_best cs (some m, score) (e, c) all = elim (Bool-cases (leb 55 score)) [
    | inl k ↦ elim (Bool-cases (leb 95 score)) [
      | inl l ↦ rw k (c, ground arith, inl (ground arith))
      | inr l ↦ rw k (c, ground arith, inr (rw e (all (ground arith))))
    ]
    | inr k ↦ rw k (All-map cs (λ x h. ground (arith, h)) (all (ground arith)))
  ]

module _ (P : Record → Type 0) where
  insert_newest-All : (x : Record) (xs : List Record) → P x → All P xs → All P (insert_newest x xs)
  unfolding insert_newest
  insert_newest-All x [] p h = (p, tt)
  insert_newest-All x (y ∷ ys) p (py, h) = elim (Bool-cases (ltb x.last_edited y.last_edited)) [
    | inl e ↦ rw e (py, insert_newest-All x ys p h)
    | inr e ↦ rw e (p, (py, h))
  ]

  newest_first-All : (xs : List Record) → All P xs → All P (newest_first xs)
  unfolding newest_first
  newest_first-All [] h = tt
  newest_first-All (x ∷ xs) (p, h) = insert_newest-All x (newest_first xs) p (newest_first-All xs h)

-- The search among the user's bank records in the date window, the 2000 last edited: it finds a
-- candidate that scores at least 55, and at least as much as every other one unless it scores at
-- least 95; or nothing, when every candidate scores less than 55.
pub find_best_plaid_match-FindsBest :
    (ratio : Ratio) (r : Record) (d : Db)
    → FindsBest ratio r (candidates true r d) (find_best_plaid_match ratio r d)
unfolding find_best_plaid_match candidates HasScore
find_best_plaid_match-FindsBest ratio r d =
    let cs = candidates true r d in
    let P : Record → Type 0 = λ c. is_candidate true r c ≡ true in
    found_best ratio r cs (best_of ratio r cs (none, 0))
      (best_of-HasScore ratio r P cs (none, 0)
        (All-take P 2000 _ (newest_first-All P _ (All-filter (is_candidate true r) d.records)))
        refl)
      (best_of_maximal ratio r cs (none, 0))
