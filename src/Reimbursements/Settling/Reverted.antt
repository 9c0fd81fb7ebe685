-- ===== src/Reimbursements/Settling/Reverted.antt =====
-- When a reversal opens a package again (`_revert_package_payment` and `_handle_async_payment` of
-- reimbursements/webhooks.py).
use papertrail.Base.{◌≡◌, true, false, some, ◌==◌, arith, ok, Text, is_blank, update}
use papertrail.Database.{World, Env, create_audit_log}
use papertrail.Records.Model.{Details}
use papertrail.Reimbursements.Model.{Package, Payment, is_paid}
use papertrail.Reimbursements.Package.{claim, reopened}
use papertrail.Reimbursements.Payment.{
  mark_failed, add_refund, refunded_by, refund_captured_payment,
}
use papertrail.Reimbursements.Settlement.{audit_event, revert_package_payment}
use papertrail.Reimbursements.Settling.Reopened.{mark_as_refunded_reopens, reopened_packages}

-- The world in which the payment is recorded as failed.
abbrev failed_world : Payment → World → World
failed_world payment w = (mark_failed payment w).1

claim_failed :
    (env : Env) (payment : Payment) (p row : Package) (w : World)
    → claim env p.pk is_paid w.db ≡ some row
    → claim env p.pk is_paid (failed_world payment w).db ≡ some row
unfolding claim mark_failed
claim_failed env payment p row w e = e

-- The failure of a charge whose own payment is not completed opens the package again if its row
-- is paid, by whatever payment, and not locked; and no refund is made.
pub revert_package_payment_foreign :
    (env : Env) (payment : Payment) (p row : Package) (event : Text) (extra : Details) (w : World)
    → payment.is_completed ≡ false
    → claim env p.pk is_paid w.db ≡ some row
    → let (result, w') = revert_package_payment env payment p event true extra w in
      (result ≡ ok tt)
      × (w'.db.packages ≡ update (λ q. q.pk == p.pk) reopened w.db.packages)
      × (w'.refunds ≡ w.refunds)
unfolding revert_package_payment refund_captured_payment audit_event create_audit_log mark_failed
revert_package_payment_foreign env payment p row event extra w undone e =
    let v = failed_world payment w in
    let found = claim_failed env payment p row w e in
    ground (arith, mark_as_refunded_reopens env p row v found, reopened_packages env p row v found)

-- A full refund or a lost dispute of a settled package opens it again, records the payment as
-- failed, and makes no refund of its own.
pub revert_package_payment_reopens :
    (env : Env) (payment : Payment) (p row : Package) (event : Text) (extra : Details) (w : World)
    → claim env p.pk is_paid w.db ≡ some row
    → let (result, w') = revert_package_payment env payment p event false extra w in
      (result ≡ ok tt)
      × (w'.db.packages ≡ update (λ q. q.pk == p.pk) reopened w.db.packages)
      × (w'.refunds ≡ w.refunds)
unfolding revert_package_payment audit_event create_audit_log mark_failed
revert_package_payment_reopens env payment p row event extra w e =
    let v = failed_world payment w in
    let found = claim_failed env payment p row w e in
    ground (arith, mark_as_refunded_reopens env p row v found, reopened_packages env p row v found)

-- When the charge of a completed payment fails, Stripe makes the refund, and the package's row is
-- paid and not locked, the refund is noted and the package is open again.
pub revert_package_payment_refunds :
    (env : Env) (payment : Payment) (p row : Package) (event : Text) (extra : Details) (w : World)
    → payment.is_completed ≡ true
    → is_blank payment.stripe_payment_intent_id ≡ false
    → env.stripe.create_refund payment.stripe_payment_intent_id event ≡ ok tt
    → claim env p.pk is_paid w.db ≡ some row
    → let (result, w') = revert_package_payment env payment p event true extra w in
      (result ≡ ok tt)
      × (w'.db.packages ≡ update (λ q. q.pk == p.pk) reopened w.db.packages)
      × (w'.refunds ≡ add_refund payment.stripe_payment_intent_id event w.refunds)
unfolding revert_package_payment refund_captured_payment refunded_by audit_event create_audit_log
    mark_failed
revert_package_payment_refunds env payment p row event extra w done intent h e =
    let refunded : World = record w {
      refunds = add_refund payment.stripe_payment_intent_id event w.refunds;
    } in
    let v = failed_world payment refunded in
    let found = claim_failed env payment p row refunded e in
    ground (arith, mark_as_refunded_reopens env p row v found, reopened_packages env p row v found)
