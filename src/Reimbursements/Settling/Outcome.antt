-- ===== src/Reimbursements/Settling/Outcome.antt =====
-- How a paid session, a failure and a refund end (`_apply_paid_session`, `_revert_package_payment`
-- and `_handle_async_payment` of reimbursements/webhooks.py).
use papertrail.Base.{
  if◌then◌else◌, raised, ◌≡◌, refl, true, false, ◌||◌, ◌==◌, arith, ok, raised, Error, Text,
  is_blank, update, inl, inr, Bool-cases,
}
use papertrail.Database.{World, Env, create_audit_log}
use papertrail.Records.Model.{Details}
use papertrail.Reimbursements.Model.{Package, Payment, Session, is_paid, is_deleted}
use papertrail.Reimbursements.Package.{claim, mark_as_paid}
use papertrail.Reimbursements.Payment.{
  amount_matches, completed_intent, complete_from_session, mark_failed, is_stripe_error,
  refunded_by, refund_captured_payment,
}
use papertrail.Reimbursements.Settlement.{
  audit_event, notify_on_commit, apply_paid_session, revert_package_payment,
}

-- A session whose amount or currency is not the payment's is ignored altogether.
pub apply_paid_session_mismatch :
    (env : Env) (payment : Payment) (p : Package) (session : Session) (source : Text) (w : World)
    → amount_matches payment session ≡ false
    → apply_paid_session env payment p session source w ≡ (ok false, w)
unfolding apply_paid_session
apply_paid_session_mismatch env payment p session source w h = rw h refl

-- A payment that was not completed and whose matching session arrives after the package was
-- deleted, or after another payment settled it, settles nothing and is recorded as failed; and no
-- refund is made.
pub apply_paid_session_late :
    (env : Env) (payment : Payment) (p : Package) (session : Session) (source : Text) (w : World)
    → amount_matches payment session ≡ true
    → (is_deleted p || is_paid p.status) ≡ true
    → payment.is_completed ≡ false
    → let (result, w') = apply_paid_session env payment p session source w in
      (result ≡ ok false)
      × (w'.db.packages ≡ w.db.packages)
      × (w'.db.payments
          ≡ update (λ x. x.pk == payment.pk) (λ x. record x { is_completed = false }) w.db.payments)
      × (w'.refunds ≡ w.refunds)
unfolding apply_paid_session refund_captured_payment mark_failed audit_event create_audit_log
apply_paid_session_late env payment p session source w m late first_time =
    elim (Bool-cases (is_deleted p)) [ inl e ↦ ground arith | inr e ↦ ground arith ]

abbrev pub completed_by : Payment → Session → Payment → Payment
completed_by payment session x = record x {
  is_completed = true;
  stripe_payment_intent_id = completed_intent payment session;
}

-- If another transaction has locked the row of a package that is neither deleted nor paid, a
-- matching session completes the payment and returns true, and the package stays as it was.
pub apply_paid_session_locked :
    (env : Env) (payment : Payment) (p : Package) (session : Session) (source : Text) (w : World)
    → amount_matches payment session ≡ true
    → is_deleted p ≡ false
    → is_paid p.status ≡ false
    → env.locked p.pk ≡ true
    → let (result, w') = apply_paid_session env payment p session source w in
      (result ≡ ok true)
      × (w'.db.packages ≡ w.db.packages)
      × (w'.db.payments
          ≡ update (λ x. x.pk == payment.pk) (completed_by payment session) w.db.payments)
unfolding apply_paid_session complete_from_session mark_as_paid claim audit_event create_audit_log
    notify_on_commit
apply_paid_session_locked env payment p session source w m alive unpaid locked =
    elim (Bool-cases payment.is_completed) [ inl e ↦ ground arith | inr e ↦ ground arith ]

-- When the request to refund the captured charge of a completed payment fails, the packages, the
-- payments and the refunds stay as they were. If the error is one of Stripe's, no exception is
-- raised; any other passes through.
pub revert_package_payment_refund_failed :
    (env : Env) (payment : Payment) (p : Package) (event : Text) (extra : Details) {e : Error}
    (w : World)
    → payment.is_completed ≡ true
    → is_blank payment.stripe_payment_intent_id ≡ false
    → env.stripe.create_refund payment.stripe_payment_intent_id event ≡ raised e
    → let (result, w') = revert_package_payment env payment p event true extra w in
      (result ≡ (if is_stripe_error e then ok tt else raised e))
      × (w'.db.packages ≡ w.db.packages)
      × (w'.db.payments ≡ w.db.payments)
      × (w'.refunds ≡ w.refunds)
unfolding revert_package_payment refund_captured_payment refunded_by audit_event create_audit_log
revert_package_payment_refund_failed env payment p event extra {e} w done intent h =
    elim (Bool-cases (is_stripe_error e)) [ inl k ↦ ground arith | inr k ↦ ground arith ]
