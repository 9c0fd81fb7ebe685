-- ===== src/Reimbursements/Reconciliation/Drifts.antt =====
-- What the daily reconciliation finds, and that it flags a drift once
-- (reimbursements/reconciliation.py).
use papertrail.Base.{
  ◌≡◌, refl, ap, sym, ◌∙◌, Bool, true, false, List, [], ◌∷◌, ◌++◌, map, arith, Text, text, text_eq,
  eqb_ℤ, does_not_exist, stripe_error, invalid_request, not_owner, self_share, rate_unavailable,
  bulk_limit_exceeded, integrity_error, value_error, api_error, Result, ok, raised, pure, lift,
  ◌>>=◌, ◌>>◌, filter, for_each, All, inl, inr, Bool-cases,
}
use papertrail.Database.{Db, World, Env, create_audit_log}
use papertrail.Reimbursements.Model.{Payment, PaymentIntent}
use papertrail.Reimbursements.Lookup.{uuid_of}
use papertrail.Reimbursements.Reconciliation.{
  Drift, settled_amount, expected_cents, wrong_currency, intent_drifts, payment_drifts, is_settled,
  drifts_of, check_completed_payments, is_unbacked, check_paid_packages, is_unsettled,
  check_unpaid_packages, flag, join_drifts, all_drifts, run_daily_reconciliation,
}

-- Stripe knows the payment's intent, and has settled what the payment expects.
abbrev pub Agrees : Env → Payment → Type 0
Agrees env payment =
    (intent : PaymentIntent) × (env.stripe.retrieve_payment_intent payment.stripe_payment_intent_id
      ≡ ok intent)
    × (text_eq intent.intent_status (text "succeeded") ≡ true)
    × (eqb_ℤ (settled_amount intent) (expected_cents payment) ≡ true)
    × (wrong_currency payment intent ≡ false)

no_intent_drifts :
    (uuid : Text) (payment : Payment) (intent : PaymentIntent)
    → intent_drifts uuid payment intent ≡ []
    → (text_eq intent.intent_status (text "succeeded") ≡ true)
      × (eqb_ℤ (settled_amount intent) (expected_cents payment) ≡ true)
      × (wrong_currency payment intent ≡ false)
unfolding intent_drifts
no_intent_drifts uuid payment intent h = (ground arith, ground arith, ground arith)

pub flag_result : (env : Env) (drift : Drift) (w : World) → (flag env drift w).0 ≡ ok tt
unfolding flag create_audit_log
flag_result env drift w = ground arith

pub for_each-flag : (env : Env) (ds : List Drift) (w : World) → (for_each ds (flag env) w).0 ≡ ok tt
unfolding for_each
for_each-flag env [] w = refl
for_each-flag env (d ∷ ds) w =
    ground (arith, flag_result env d w, for_each-flag env ds (flag env d w).1)

unfoldable pub run_found : Env → Result (List Drift) → World → Result (List Drift) × World
run_found env found w = (lift found >>= λ ds. for_each ds (flag env) >> pure ds) w

run_found_result :
    (env : Env) (found : Result (List Drift)) (w : World) → (run_found env found w).0 ≡ found
unfolding run_found
run_found_result env (ok ds) w = ground (arith, for_each-flag env ds w)
run_found_result env (raised e) w = refl

pub run-run_found :
    (env : Env) (w : World) → run_daily_reconciliation env w ≡ run_found env (all_drifts env w.db) w
unfolding run_daily_reconciliation run_found
run-run_found env w = refl

pub run_result : (env : Env) (w : World) → (run_daily_reconciliation env w).0 ≡ all_drifts env w.db
run_result env w = rw (run-run_found env w) (run_found_result env (all_drifts env w.db) w)

none_filtered :
    {A B : Type 0} (f : A → B) (p : A → Bool) (xs : List A)
    → map f (filter p xs) ≡ []
    → All (λ x. p x ≡ false) xs
unfolding filter
none_filtered f p [] h = tt
none_filtered f p (x ∷ xs) h = elim (Bool-cases (p x)) [
  | inl e ↦ ground arith
  | inr e ↦ (e, none_filtered f p xs (ground arith))
]

intent-Agrees :
    (env : Env) (uuid : Text) (payment : Payment) (r : Result PaymentIntent)
    → env.stripe.retrieve_payment_intent payment.stripe_payment_intent_id ≡ r
    → payment_drifts uuid payment r ≡ ok []
    → Agrees env payment
unfolding payment_drifts
intent-Agrees env uuid payment (ok intent) e h =
    let (succeeded, amount, currency) = no_intent_drifts uuid payment intent (ground arith) in
    (intent, e, succeeded, amount, currency)
intent-Agrees env uuid payment (raised does_not_exist) e h = cc
intent-Agrees env uuid payment (raised stripe_error) e h = cc
intent-Agrees env uuid payment (raised invalid_request) e h = cc
intent-Agrees env uuid payment (raised not_owner) e h = cc
intent-Agrees env uuid payment (raised self_share) e h = cc
intent-Agrees env uuid payment (raised rate_unavailable) e h = cc
intent-Agrees env uuid payment (raised bulk_limit_exceeded) e h = cc
intent-Agrees env uuid payment (raised integrity_error) e h = cc
intent-Agrees env uuid payment (raised value_error) e h = cc
intent-Agrees env uuid payment (raised api_error) e h = cc

append_nil : {A : Type 0} (xs ys : List A) → xs ++ ys ≡ [] → (xs ≡ []) × (ys ≡ [])
append_nil [] ys h = (refl, h)
append_nil (x ∷ xs) ys h = (cc, cc)

joined_nil : (r s : Result (List Drift)) → join_drifts r s ≡ ok [] → (r ≡ ok []) × (s ≡ ok [])
joined_nil (ok ds) (ok es) h = let (a, b) = append_nil ds es (ground arith) in (ap ok a, ap ok b)
joined_nil (ok ds) (raised e) h = (cc, cc)
joined_nil (raised e) s h = (cc, cc)

drifts_of-Agrees :
    (env : Env) (d : Db) (payments : List Payment)
    → drifts_of env d payments ≡ ok []
    → All (Agrees env) payments
unfolding drifts_of
drifts_of-Agrees env d [] h = tt
drifts_of-Agrees env d (payment ∷ payments) h =
    let (a, b) = joined_nil _ _ h in
    (intent-Agrees env (uuid_of d payment) payment _ refl a, drifts_of-Agrees env d payments b)

-- When a run reports no drift, everything it is to check holds: Stripe has settled each completed
-- payment with an intent for the amount and in the currency it expects, each paid package that is
-- not deleted has a completed payment, and each completed payment belongs to a paid package.
pub run_daily_reconciliation_clean :
    (env : Env) (w : World)
    → (run_daily_reconciliation env w).0 ≡ ok []
    → All (Agrees env) (filter is_settled w.db.payments)
      × All (λ p. is_unbacked w.db p ≡ false) w.db.packages
      × All (λ x. is_unsettled w.db x ≡ false) w.db.payments
unfolding all_drifts check_completed_payments check_paid_packages check_unpaid_packages
run_daily_reconciliation_clean env w h =
    let (settled, rest) =
      joined_nil (check_completed_payments env w.db) _ (sym (run_result env w) ∙ h) in
    let (paid, unpaid) =
      append_nil (check_paid_packages w.db) (check_unpaid_packages w.db) (ground arith) in
    (
      drifts_of-Agrees env w.db (filter is_settled w.db.payments) settled,
      none_filtered _ (is_unbacked w.db) w.db.packages paid,
      none_filtered _ (is_unsettled w.db) w.db.payments unpaid,
    )
