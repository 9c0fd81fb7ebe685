-- ===== src/Reimbursements/Tests/Events.antt =====
-- Stripe's events on the example database.
use papertrail.Base.{
  ◌≡◌, refl, true, false, some, [], ◌∷◌, ◌==◌, update, text, text_eq, ok, raised, stripe_error,
  first, lower, exists,
}
use papertrail.Database.{Env}
use papertrail.Reimbursements.Package.{claim, settled, reopened}
use papertrail.Reimbursements.Payment.{amount_matches}
use papertrail.Reimbursements.Settlement.{apply_paid_session, revert_package_payment}
use papertrail.Reimbursements.Lookup.{package_of}
use papertrail.Reimbursements.Webhooks.{
  Event, session_completed, charge_failed, is_processed, process_stripe_event,
}
use papertrail.Reimbursements.Tasks.{reconcile_pending_payments}
use papertrail.Reimbursements.Delivery.{process_stripe_event_idempotent}
use papertrail.Reimbursements.Invariants.Consistency.{
  PackagesConsistent, process_stripe_event-PackagesConsistent,
}
use papertrail.Reimbursements.Invariants.Trail.{Extends, process_stripe_event-Extends}
use papertrail.Reimbursements.Invariants.Terms.{SameTerms, process_stripe_event-SameTerms}
use papertrail.Reimbursements.Settling.Outcome.{
  completed_by, apply_paid_session_late, apply_paid_session_locked,
  revert_package_payment_refund_failed,
}
use papertrail.Reimbursements.Settling.Reverted.{revert_package_payment_foreign}
use papertrail.Reimbursements.Settling.Session.{process_stripe_event-session_completed}
use papertrail.Reimbursements.Tests.{
  payer, trip, payment, session, start, world, stripe, env, busy, paid_trip, completed, paid_world,
}

abbrev paid_event : Event
paid_event = record { id = text "ev"; body = session_completed session }

abbrev charge_event : Event
charge_event = record {
  id = text "ev2";
  body =
      charge_failed
        (record { payment_intent = text "pi"; source_transaction = []; failure_message = [] });
}

process_stripe_event-session_completed_example :
    let (result, w') = process_stripe_event env paid_event world in
    (result ≡ ok tt)
    × (w'.db.packages ≡ update (λ q. q.pk == 1) (settled (some payer) 100) (trip ∷ []))
    × (w'.db.payments ≡ update (λ x. x.pk == 5) (completed_by payment session) (payment ∷ []))
    × (w'.refunds ≡ [])
unfolding is_processed exists first text_eq package_of amount_matches lower claim
process_stripe_event-session_completed_example =
    process_stripe_event-session_completed env (text "ev") session payment trip trip world refl refl
      refl refl refl refl refl refl refl

process_stripe_event_idempotent_example :
    let w' = (process_stripe_event env paid_event world).1 in
    process_stripe_event busy paid_event w' ≡ (ok tt, w')
process_stripe_event_idempotent_example =
    process_stripe_event_idempotent env busy paid_event world refl
      process_stripe_event-session_completed_example.0

process_stripe_event-PackagesConsistent_example :
    PackagesConsistent (process_stripe_event env charge_event paid_world).1
process_stripe_event-PackagesConsistent_example =
    process_stripe_event-PackagesConsistent env charge_event paid_world ((refl, refl), tt)

process_stripe_event-Extends_example :
    Extends [] (process_stripe_event env paid_event world).1
    × Extends [] (reconcile_pending_payments env world).1
process_stripe_event-Extends_example = process_stripe_event-Extends env paid_event world

process_stripe_event-SameTerms_example :
    SameTerms start (process_stripe_event env paid_event world).1
process_stripe_event-SameTerms_example = process_stripe_event-SameTerms env paid_event world

-- Stripe cannot be reached when the intent of the failed charge is looked up.
abbrev outage : Env
outage = record env {
  stripe = record stripe { retrieve_payment_intent = λ id. raised stripe_error };
}

apply_paid_session_late_example :
    let (result, w') = apply_paid_session env payment paid_trip session [] paid_world in
    (result ≡ ok false)
    × (w'.db.packages ≡ paid_trip ∷ [])
    × (w'.db.payments
        ≡ update (λ x. x.pk == 5) (λ x. record x { is_completed = false }) (completed ∷ []))
    × (w'.refunds ≡ [])
unfolding amount_matches lower text_eq
apply_paid_session_late_example =
    apply_paid_session_late env payment paid_trip session [] paid_world refl refl refl

apply_paid_session_locked_example :
    let (result, w') = apply_paid_session busy payment trip session [] world in
    (result ≡ ok true)
    × (w'.db.packages ≡ trip ∷ [])
    × (w'.db.payments ≡ update (λ x. x.pk == 5) (completed_by payment session) (payment ∷ []))
unfolding amount_matches lower text_eq
apply_paid_session_locked_example =
    apply_paid_session_locked busy payment trip session [] world refl refl refl refl

abbrev refusing : Env
refusing = record env {
  stripe = record stripe { create_refund = λ intent reason. raised stripe_error };
}

revert_package_payment_refund_failed_example :
    let (result, w') =
      revert_package_payment refusing completed paid_trip
        (text "charge.failed")
        true
        []
        paid_world in
    (result ≡ ok tt)
    × (w'.db.packages ≡ paid_trip ∷ [])
    × (w'.db.payments ≡ completed ∷ [])
    × (w'.refunds ≡ [])
revert_package_payment_refund_failed_example =
    revert_package_payment_refund_failed refusing completed paid_trip (text "charge.failed") []
      paid_world refl refl refl

revert_package_payment_foreign_example :
    let (result, w') =
      revert_package_payment env payment paid_trip (text "charge.failed") true [] paid_world in
    (result ≡ ok tt)
    × (w'.db.packages ≡ update (λ q. q.pk == 1) reopened (paid_trip ∷ []))
    × (w'.refunds ≡ [])
unfolding claim first
revert_package_payment_foreign_example =
    revert_package_payment_foreign env payment paid_trip paid_trip (text "charge.failed") []
      paid_world refl refl
