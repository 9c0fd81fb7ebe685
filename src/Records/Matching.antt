-- ===== src/Records/Matching.antt =====
-- records/matching.py: the score of a pair of records, the search for matches, and the automatic
-- merges.
pub mod Bounds
pub mod Best
use papertrail.Base.{
  ℕ, ◌+◌, ◌-◌, ◌*◌, ◌^◌, ◌≤◌, Bool, true, false, not, ◌&&◌, ◌||◌, Option, none, some, is_some, List,
  [], ◌∷◌, ◌++◌, ◌==◌, ltb, leb, if◌then◌else◌, length, take, Text, text_eq, is_blank, lower, strip,
  pure, ◌>>=◌, ◌>>◌, filter,
}
use papertrail.Database.{Db, Env, M, gets_db}
use papertrail.Money.Decimal.{Decimal, add, is_zero, of_ℕ}
use papertrail.Records.Model.{User, Record, Document}
use papertrail.Records.Merging.{merge_document_into_plaid}

abbrev pub date_tolerance_days : ℕ
date_tolerance_days = 3

abbrev pub match_lookahead_days : ℕ
match_lookahead_days = 14

abbrev pub merge_score_threshold : ℕ
merge_score_threshold = 55

abbrev pub max_match_candidates : ℕ
max_match_candidates = 2000

-- `rapidfuzz.fuzz.ratio` of two texts, in hundredths of a percent.
abbrev pub Ratio : Type 0
Ratio = Text → Text → ℕ

-- `_normalize`.
unfoldable pub normalize : Text → Text
normalize s = strip (lower s)

abbrev distance : ℕ → ℕ → ℕ
distance a b = a - b + (b - a)

longer : ℕ → ℕ → ℕ
longer a b = if ltb a b then b else a

-- Texts that are normalized; a similarity of one is 10000.
similarity_of : Ratio → Text → Text → ℕ
unfolding longer
similarity_of ratio a b =
    if ltb (length a) 3 || ltb (length b) 3
    then if text_eq a b then 10000 else 0
    else if ltb (longer (length a) (length b) * 6) (distance (length a) (length b) * 10)
    then 0
    else ratio a b

-- `_similarity`.
unfoldable pub similarity : Ratio → Text → Text → ℕ
unfolding similarity_of
similarity ratio a b =
    if is_blank a || is_blank b then 0 else similarity_of ratio (normalize a) (normalize b)

-- `abs(a - b)`.
unfoldable pub difference : Decimal → Decimal → Decimal
difference a b = record (add a (record b { negative = not b.negative })) { negative = false }

-- Whether an amount that is not negative is at most a whole number.
unfoldable pub at_most : Decimal → ℕ → Bool
at_most a n = leb a.coefficient (n * 10 ^ a.scale)

balance_points : Option Decimal → Option Decimal → ℕ
balance_points none b = 0
balance_points (some a) none = 0
balance_points (some a) (some b) =
    let diff = difference a b in
    if is_zero diff then 40 else if at_most diff 1 then 30 else if at_most diff 3 then 15 else 0

date_points : Option ℕ → Option ℕ → ℕ
date_points none b = 0
date_points (some a) none = 0
date_points (some a) (some b) =
    let days = distance a b in
    if days == 0
    then 30
    else if days == 1
    then 20
    else if leb days date_tolerance_days
    then 10
    else 0

merchant_points : ℕ → ℕ
merchant_points sim =
    if leb 9000 sim
    then 30
    else if leb 7000 sim
    then 20
    else if leb 5000 sim
    then 10
    else if leb 3000 sim
    then 5
    else 0

title_points : ℕ → ℕ
title_points sim =
    if leb 9000 sim
    then 20
    else if leb 7000 sim
    then 15
    else if leb 5000 sim
    then 8
    else if leb 3000 sim
    then 3
    else 0

-- `calculate_match_score`; the similarity of a missing text is zero, which has no points.
unfoldable pub calculate_match_score : Ratio → Record → Record → ℕ
unfolding balance_points date_points merchant_points title_points
calculate_match_score ratio a b =
    balance_points a.balance b.balance
    + date_points a.transaction_date b.transaction_date
    + merchant_points (similarity ratio a.merchant b.merchant)
    + title_points (similarity ratio a.title b.title)

in_range : ℕ → Option ℕ → Bool
in_range day none = false
in_range day (some d) = leb (day - match_lookahead_days) d && leb d (day + match_lookahead_days)

-- `_apply_date_window`: dates are days.
unfoldable pub in_date_window : Record → Record → Bool
unfolding in_range
in_date_window r candidate = elim (r.transaction_date) [
  | none ↦ true
  | some day ↦ in_range day candidate.transaction_date
]

-- The user's other active records, of the bank or not, in the window.
unfoldable pub is_candidate : Bool → Record → Record → Bool
is_candidate from_bank r c =
    (c.user.pk == r.user.pk && (c.is_active && not (c.pk == r.pk)))
    && ((if from_bank then is_some c.plaid_transaction_id else not (is_some c.plaid_transaction_id))
        && in_date_window r c)

insert_newest : Record → List Record → List Record
insert_newest r [] = r ∷ []
insert_newest r (x ∷ xs) =
    let rest = insert_newest r xs in
    if ltb r.last_edited x.last_edited then x ∷ rest else r ∷ x ∷ xs

-- The ordering of `Record`: the last edited first.
unfoldable pub newest_first : List Record → List Record
unfolding insert_newest
newest_first [] = []
newest_first (x ∷ xs) = insert_newest x (newest_first xs)

-- The candidates, as a query with a limit returns them.
unfoldable pub candidates : Bool → Record → Db → List Record
candidates from_bank r d =
    take max_match_candidates (newest_first (filter (is_candidate from_bank r) d.records))

-- The best match so far, and its score.
abbrev pub Best : Type 0
Best = Option Record × ℕ

-- The loop of `find_best_plaid_match`; it stops at a score of 95.
unfoldable pub best_of : Ratio → Record → List Record → Best → Best
best_of ratio r [] best = best
best_of ratio r (c ∷ cs) best =
    let score = calculate_match_score ratio r c in
    let kept = best_of ratio r cs best in
    let raised = best_of ratio r cs (some c, score) in
    if ltb best.1 score then (if leb 95 score then (some c, score) else raised) else kept

unfoldable pub find_best_plaid_match : Ratio → Record → Db → Option Record
find_best_plaid_match ratio r d =
    let best = best_of ratio r (candidates true r d) (none, 0) in
    if leb merge_score_threshold best.1 then best.0 else none

-- A match and its score.
abbrev pub Scored : Type 0
Scored = Record × ℕ

-- The candidates that score at least the threshold.
unfoldable pub scored : Ratio → Record → List Record → List Scored
scored ratio r [] = []
scored ratio r (c ∷ cs) =
    let score = calculate_match_score ratio r c in
    let rest = scored ratio r cs in
    if leb merge_score_threshold score then (c, score) ∷ rest else rest

unfoldable pub insert_score : Scored → List Scored → List Scored
insert_score x [] = x ∷ []
insert_score x (y ∷ ys) =
    let rest = insert_score x ys in if ltb x.1 y.1 then y ∷ rest else x ∷ y ∷ ys

-- `results.sort(key=lambda x: -x[1])`, which is stable.
unfoldable pub sort_scores : List Scored → List Scored
sort_scores [] = []
sort_scores (x ∷ xs) = insert_score x (sort_scores xs)

unfoldable pub find_document_matches_for_plaid : Ratio → Record → Db → List Scored
find_document_matches_for_plaid ratio r d = sort_scores (scored ratio r (candidates false r d))

unfoldable pub merge_match : Env → Record → Option ℕ → Option Record → M (Option Record)
merge_match env doc document none = pure none
merge_match env doc document (some plaid) = merge_document_into_plaid env plaid.pk doc.pk document

-- `try_match_document_record`.
unfoldable pub try_match_document_record : Env → Ratio → Record → Option ℕ → M (Option Record)
unfolding merge_match
try_match_document_record env ratio doc document = do
  match ← gets_db (find_best_plaid_match ratio doc)
  merge_match env doc document match

-- The document of a record in `docs_by_record`; of several the last stays.
unfoldable pub document_of : ℕ → List Document → Option ℕ
document_of pk [] = none
document_of pk (x ∷ xs) =
    let later = document_of pk xs in
    if is_some later
    then later
    else elim (x.associated_record) [ none ↦ none | some r ↦ if r == pk then some x.pk else none ]

unfoldable pub keep_merged : Record → Option Record → List Record → List Record
keep_merged doc none merged = merged
keep_merged doc (some p) merged = doc ∷ merged

unfoldable pub merge_all : Env → Record → List Document → List Scored → M (List Record)
unfolding keep_merged
merge_all env plaid documents [] = pure []
merge_all env plaid documents ((doc, score) ∷ matches) = do
  result ← merge_document_into_plaid env plaid.pk doc.pk (document_of doc.pk documents)
  merged ← merge_all env plaid documents matches
  pure (keep_merged doc result merged)

-- `try_match_plaid_record`.
unfoldable pub try_match_plaid_record : Env → Ratio → Record → M (List Record)
try_match_plaid_record env ratio plaid = do
  matches ← gets_db (find_document_matches_for_plaid ratio plaid)
  documents ← gets_db (λ d. d.documents)
  merge_all env plaid documents matches
