-- ===== src/Reimbursements/Settling/Session.antt =====
-- From the event of a paid session to the settled package
-- (`_handle_checkout_session_completed` of reimbursements/webhooks.py).
use papertrail.Base.{
  ◌≡◌, refl, ap, ◌∙◌, true, false, Option, none, some, ◌==◌, arith, ok, Text, text, text_eq,
  is_blank, or_text, first, update, inl, inr, Bool-cases,
}
use papertrail.Database.{Db, World, Env, create_audit_log}
use papertrail.Reimbursements.Model.{Package, Payment, Session, is_open, is_paid, is_deleted}
use papertrail.Reimbursements.Package.{claim, settled, insert_receipt, mark_as_paid}
use papertrail.Reimbursements.Payment.{amount_matches, complete_from_session}
use papertrail.Reimbursements.Settlement.{audit_event, notify_on_commit, apply_paid_session}
use papertrail.Reimbursements.Lookup.{package_of, payment_for_checkout_session}
use papertrail.Reimbursements.Webhooks.{
  session_completed, handle_checkout_session_completed, handle, is_processed, mark_processed,
  process_once, process_stripe_event,
}
use papertrail.Reimbursements.Settling.Paid.{mark_as_paid_settles, settled_packages}
use papertrail.Reimbursements.Settling.Outcome.{completed_by}

abbrev completed_world : Payment → Session → World → World
completed_world payment session w = (complete_from_session payment session w).1

claim_completed :
    (env : Env) (payment : Payment) (session : Session) (p row : Package) (w : World)
    → claim env p.pk is_open w.db ≡ some row
    → claim env p.pk is_open (completed_world payment session w).db ≡ some row
unfolding claim complete_from_session
claim_completed env payment session p row w e = e

insert_receipt_payments :
    (env : Env) (p : Package) (payer : Option _) (amount : _) (currency : Text) (d : Db)
    → (insert_receipt env p payer amount currency d).payments ≡ d.payments
unfolding insert_receipt
insert_receipt_payments env p none amount currency d = refl
insert_receipt_payments env p (some u) amount currency d = refl

paid_payments :
    (env : Env) (p row : Package) (payer : Option _) (currency : Text) (w : World)
    → claim env p.pk is_open w.db ≡ some row
    → (mark_as_paid env p payer currency w).1.db.payments ≡ w.db.payments
paid_payments env p row payer currency w e =
    ap (λ d. d.payments) (mark_as_paid_settles env p row payer currency w e).1
    ∙ insert_receipt_payments env p payer _ _ _

-- A matching session of an undeleted, unpaid package whose row is open and not locked settles it:
-- the package is paid by the payment's payer, the payment is completed, and nothing is refunded.
pub apply_paid_session_settles :
    (env : Env) (payment : Payment) (p row : Package) (session : Session) (source : Text)
    (w : World)
    → amount_matches payment session ≡ true
    → is_deleted p ≡ false
    → is_paid p.status ≡ false
    → claim env p.pk is_open w.db ≡ some row
    → let (result, w') = apply_paid_session env payment p session source w in
      (result ≡ ok true)
      × (w'.db.packages ≡ update (λ q. q.pk == p.pk) (settled payment.payer env.now) w.db.packages)
      × (w'.db.payments
          ≡ update (λ x. x.pk == payment.pk) (completed_by payment session) w.db.payments)
      × (w'.refunds ≡ w.refunds)
unfolding apply_paid_session complete_from_session audit_event create_audit_log notify_on_commit
apply_paid_session_settles env payment p row session source w m alive unpaid e =
    let v = completed_world payment session w in
    let found = claim_completed env payment session p row w e in
    let currency = or_text payment.payer_currency (text "usd") in
    let paid = mark_as_paid_settles env p row payment.payer currency v found in
    let packages = settled_packages env p row payment.payer currency v found in
    let payments = paid_payments env p row payment.payer currency v found in
    elim (Bool-cases payment.is_completed) [
      | inl t ↦ ground (arith, paid, packages, payments)
      | inr t ↦ ground (arith, paid, packages, payments)
    ]

-- The first row of the session's payment and its package, as the query joins them.
pub payment_for_checkout_session_found :
    (env : Env) (id : Text) (payment : Payment) (p : Package) (w : World)
    → first (λ x. text_eq x.stripe_checkout_session_id id) w.db.payments ≡ some payment
    → package_of w.db payment ≡ some p
    → payment_for_checkout_session env id w ≡ (ok (some (payment, p)), w)
unfolding payment_for_checkout_session
payment_for_checkout_session_found env id payment p w e k = ground arith

-- A new event reports a paid session. If the session's payment and its package are found, the
-- package is open, not deleted and not locked, and amount and currency are those that the payment
-- expects, then processing succeeds: the package is paid by the payment's payer at the present
-- time, the payment is completed, and nothing is refunded.
pub process_stripe_event-session_completed :
    (env : Env) (id : Text) (session : Session) (payment : Payment) (p row : Package) (w : World)
    → is_processed id w.db ≡ false
    → text_eq session.payment_status (text "paid") ≡ true
    → is_blank session.package_uuid ≡ false
    → first (λ x. text_eq x.stripe_checkout_session_id session.id) w.db.payments ≡ some payment
    → package_of w.db payment ≡ some p
    → amount_matches payment session ≡ true
    → is_deleted p ≡ false
    → is_paid p.status ≡ false
    → claim env p.pk is_open w.db ≡ some row
    → let (result, w') =
        process_stripe_event env (record { id = id; body = session_completed session }) w in
      (result ≡ ok tt)
      × (w'.db.packages ≡ update (λ q. q.pk == p.pk) (settled payment.payer env.now) w.db.packages)
      × (w'.db.payments
          ≡ update (λ x. x.pk == payment.pk) (completed_by payment session) w.db.payments)
      × (w'.refunds ≡ w.refunds)
unfolding process_stripe_event process_once handle handle_checkout_session_completed mark_processed
process_stripe_event-session_completed env id session payment p row w new status uuid ep kp m alive
      unpaid e =
    ground (
      arith,
      payment_for_checkout_session_found env session.id payment p w ep kp,
      apply_paid_session_settles env payment p row session (text "package_paid") w m alive unpaid e,
    )
