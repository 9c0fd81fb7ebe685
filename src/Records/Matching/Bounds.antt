-- ===== src/Records/Matching/Bounds.antt =====
-- The range of a match's score (`calculate_match_score` of records/matching.py).
use papertrail.Base.{ℕ, ◌≤◌, Option, none, some, arith}
use papertrail.Money.Decimal.{Decimal}
use papertrail.Records.Model.{Record}
use papertrail.Records.Matching.{
  Ratio, balance_points, date_points, merchant_points, title_points, calculate_match_score,
  similarity,
}

balance_bound : (a b : Option Decimal) → balance_points a b ≤ 40
unfolding balance_points
balance_bound none b = omega arith
balance_bound (some a) none = omega arith
balance_bound (some a) (some b) = ground arith

date_bound : (a b : Option ℕ) → date_points a b ≤ 30
unfolding date_points
date_bound none b = omega arith
date_bound (some a) none = omega arith
date_bound (some a) (some b) = ground arith

merchant_bound : (sim : ℕ) → merchant_points sim ≤ 30
unfolding merchant_points
merchant_bound sim = ground arith

title_bound : (sim : ℕ) → title_points sim ≤ 20
unfolding title_points
title_bound sim = ground arith

-- The score is at most 120, whatever the ratio of two texts is.
pub calculate_match_score_bound :
    (ratio : Ratio) (a b : Record) → calculate_match_score ratio a b ≤ 120
unfolding calculate_match_score
calculate_match_score_bound ratio a b = omega (
  arith,
  balance_bound a.balance b.balance,
  date_bound a.transaction_date b.transaction_date,
  merchant_bound (similarity ratio a.merchant b.merchant),
  title_bound (similarity ratio a.title b.title),
)
