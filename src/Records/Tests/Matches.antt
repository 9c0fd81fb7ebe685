-- ===== src/Records/Tests/Matches.antt =====
-- A receipt and the bank transaction that it matches.
use papertrail.Base.{true, some, [], ◌∷◌, text}
use papertrail.Database.{Db}
use papertrail.Reimbursements.Tests.{lunch, start}
use papertrail.Records.Matching.{Ratio, candidates, find_best_plaid_match}
use papertrail.Records.Matching.Best.{FindsBest, find_best_plaid_match-FindsBest}

-- A ratio that finds any two texts alike.
abbrev alike : Ratio
alike a b = 9500

abbrev bank_lunch : Db
bank_lunch = record start {
  records = record lunch { pk = 11; plaid_transaction_id = some (text "t1") } ∷ lunch ∷ [];
}

find_best_plaid_match-FindsBest_example :
    FindsBest alike lunch
      (candidates true lunch bank_lunch)
      (find_best_plaid_match alike lunch bank_lunch)
find_best_plaid_match-FindsBest_example = find_best_plaid_match-FindsBest alike lunch bank_lunch
