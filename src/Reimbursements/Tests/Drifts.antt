-- ===== src/Reimbursements/Tests/Drifts.antt =====
-- The daily reconciliation of a package that is paid without a payment.
use papertrail.Base.{
  ◌≡◌, false, [], ◌∷◌, List, text, text_eq, lower, ok, filter, first, exists, All, pos,
}
use papertrail.Database.{World, Env}
use papertrail.Reimbursements.Lookup.{package_of, uuid_of}
use papertrail.Reimbursements.Reconciliation.{
  Drift, is_settled, is_unbacked, is_unsettled, check_completed_payments, drifts_of,
  check_paid_packages, check_unpaid_packages, all_drifts, payment_drifts, intent_drifts,
  settled_amount, expected_cents, wrong_currency,
}
use papertrail.Reimbursements.Reconciliation.Drifts.{
  Agrees, run_result, run_daily_reconciliation_clean,
}
use papertrail.Reimbursements.Tests.{start, world, env, paid_trip, completed, paid_world}

-- Stripe has settled the payment.
abbrev settled_env : Env
settled_env = record env {
  stripe = record env.stripe {
    retrieve_payment_intent = λ id. ok (record {
      id = id;
      intent_status = text "succeeded";
      currency = text "usd";
      amount_received = pos 1000;
      amount = pos 1000;
      package_uuid = [];
    });
  };
}

run_daily_reconciliation_clean_example :
    All (Agrees settled_env) (filter is_settled (completed ∷ []))
    × All (λ p. is_unbacked paid_world.db p ≡ false) (paid_trip ∷ [])
    × All (λ x. is_unsettled paid_world.db x ≡ false) (completed ∷ [])
unfolding all_drifts check_completed_payments drifts_of check_paid_packages check_unpaid_packages
    filter first exists package_of uuid_of payment_drifts intent_drifts settled_amount
    expected_cents wrong_currency text_eq lower
run_daily_reconciliation_clean_example =
    run_daily_reconciliation_clean settled_env paid_world (run_result settled_env paid_world)

-- The payment was lost.
abbrev unbacked : World
unbacked = record world { db = record start { packages = paid_trip ∷ []; payments = [] } }

abbrev drifts : List Drift
drifts =
    record {
      kind = text "paid_package_without_completed_payment";
      package_uuid = text "u-1";
      detail = [];
    }
    ∷ []
