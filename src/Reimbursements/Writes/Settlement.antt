-- ===== src/Reimbursements/Writes/Settlement.antt =====
-- Settling, reverting and restoring a payment keep what the writes keep
-- (reimbursements/webhooks.py and models.py).
use papertrail.Base.{
  Keeps-if, Keeps-raise, raise, pure, refl, Bool, true, false, Option, none, some, Text, Result, ok,
  raised, Keeps, Keeps-pure, Keeps-bind, keeps_rules, or_text, text,
}
use papertrail.Database.{World, Env, modify_db}
use papertrail.Money.Decimal.{Decimal}
use papertrail.Records.Model.{User, Details}
use papertrail.Reimbursements.Model.{Package, Payment, Session}
use papertrail.Reimbursements.Package.{
  save_reimbursed, insert_receipt, mark_receipts, pay_row, reopen_row, mark_as_paid,
  mark_as_refunded,
}
use papertrail.Reimbursements.Payment.{
  complete_from_session, mark_failed, is_stripe_error, refunded_by, refund_captured_payment,
}
use papertrail.Reimbursements.Settlement.{
  audit_event, notify_on_commit, apply_paid_session, revert_package_payment, note_restored,
  restore_paid_payment,
}
use papertrail.Reimbursements.Writes.{IsSideWrite, IsPaymentWrite, KeptByWrites}
use papertrail.Reimbursements.Writes.Handlers.{
  Keeps-atomic, Keeps-gets_db, revoke_package_access-Keeps, grant_package_access-Keeps,
}

module _ {P : World → Type 0} (k : KeptByWrites P) where
  open k use {by_side_write, by_settlement, by_reopening, by_payment_write, by_refund}

  reimbursed-Keeps : (p : Package) (b : Bool) → Keeps P (modify_db (save_reimbursed p b))
  reimbursed-Keeps p b = by_side_write (save_reimbursed p b) (λ d. (refl, refl, refl))

  receipt-IsSideWrite :
      (env : Env) (p : Package) (payer : Option User) (converted : Decimal) (currency : Text)
      → IsSideWrite (insert_receipt env p payer converted currency)
  unfolding insert_receipt
  receipt-IsSideWrite env p none converted currency d = (refl, refl, refl)
  receipt-IsSideWrite env p (some u) converted currency d = (refl, refl, refl)

  receipts-IsSideWrite : (p : Package) (payer : Option User) → IsSideWrite (mark_receipts p payer)
  unfolding mark_receipts
  receipts-IsSideWrite p none d = (refl, refl, refl)
  receipts-IsSideWrite p (some u) d = (refl, refl, refl)

  receipt-Keeps :
      (env : Env) (p : Package) (payer : Option User) (converted : Decimal) (currency : Text)
      → Keeps P (modify_db (insert_receipt env p payer converted currency))
  receipt-Keeps env p payer converted currency =
      by_side_write (insert_receipt env p payer converted currency)
        (receipt-IsSideWrite env p payer converted currency)

  receipts-Keeps : (p : Package) (payer : Option User) → Keeps P (modify_db (mark_receipts p payer))
  receipts-Keeps p payer = by_side_write (mark_receipts p payer) (receipts-IsSideWrite p payer)

  pay_row-Keeps :
      (env : Env) (p : Package) (payer : Option User) (currency : Text) (converted : Decimal)
      (locked : Option Package)
      → Keeps P (pay_row env p payer currency converted locked)
  unfolding pay_row
  pay_row-Keeps env p payer currency converted none = Keeps-pure false
  pay_row-Keeps env p payer currency converted (some locked) =
      Keeps-bind _ _ (by_settlement locked.pk payer env.now) λ _.
        Keeps-bind _ _ (reimbursed-Keeps p true)
          λ _. Keeps-bind _ _ (receipt-Keeps env p payer converted currency) λ _. Keeps-pure true

  pub mark_as_paid-Keeps :
      (env : Env) (p : Package) (payer : Option User) (currency : Text)
      → Keeps P (mark_as_paid env p payer currency)
  unfolding mark_as_paid
  mark_as_paid-Keeps env p payer currency =
      search
        (
          keeps_rules,
          Keeps-gets_db k.access,
          Keeps-atomic k.access,
          pay_row-Keeps,
          revoke_package_access-Keeps k.access,
        )
        depth 9

  reopen_row-Keeps : (p : Package) (locked : Option Package) → Keeps P (reopen_row p locked)
  unfolding reopen_row
  reopen_row-Keeps p none = Keeps-pure false
  reopen_row-Keeps p (some locked) = Keeps-bind _ _ (by_reopening locked.pk) λ _.
      Keeps-bind _ _ (reimbursed-Keeps p false)
        λ _. Keeps-bind _ _ (receipts-Keeps p locked.paid_by) λ _. Keeps-pure true

  pub mark_as_refunded-Keeps : (env : Env) (p : Package) → Keeps P (mark_as_refunded env p)
  unfolding mark_as_refunded
  mark_as_refunded-Keeps env p =
      search
        (
          keeps_rules,
          Keeps-gets_db k.access,
          Keeps-atomic k.access,
          reopen_row-Keeps,
          grant_package_access-Keeps k.access,
        )
        depth 9

  refunded_by-Keeps :
      (r : Result (Unit {0})) (intent reason : Text) → Keeps P (refunded_by r intent reason)
  unfolding refunded_by
  refunded_by-Keeps (raised e) intent reason =
      Keeps-if (is_stripe_error e) (pure false) (raise e) (Keeps-pure false) (Keeps-raise e)
  refunded_by-Keeps (ok done) intent reason = record { at = λ w h. by_refund intent reason w h }

  refund_captured_payment-Keeps :
      (env : Env) (payment : Payment) (event : Text)
      → Keeps P (refund_captured_payment env payment event)
  unfolding refund_captured_payment
  refund_captured_payment-Keeps env payment event = search (keeps_rules, refunded_by-Keeps)

  complete_from_session-Keeps :
      (payment : Payment) (session : Session) → Keeps P (complete_from_session payment session)
  unfolding complete_from_session
  complete_from_session-Keeps payment session = by_payment_write payment.pk _ (λ p. refl)

  completion-IsPaymentWrite : (b : Bool) → IsPaymentWrite (λ row. record row { is_completed = b })
  completion-IsPaymentWrite b = (λ p. refl)

  pub mark_failed-Keeps : (payment : Payment) → Keeps P (mark_failed payment)
  unfolding mark_failed
  mark_failed-Keeps payment = by_payment_write payment.pk _ (completion-IsPaymentWrite false)

  pub audit_event-Keeps :
      (env : Env) (p : Package) (details : Details) → Keeps P (audit_event env p details)
  unfolding audit_event
  audit_event-Keeps env p details = k.access.by_audit env _ _ _ details

  notify-Keeps :
      (p : Package) (payment : Payment) → Keeps P (modify_db (notify_on_commit p payment))
  notify-Keeps p payment =
      by_side_write (notify_on_commit p payment)
        (unfold notify_on_commit in λ d. (refl, refl, refl))

  pub apply_paid_session-Keeps :
      (env : Env) (payment : Payment) (p : Package) (session : Session) (source : Text)
      → Keeps P (apply_paid_session env payment p session source)
  unfolding apply_paid_session
  apply_paid_session-Keeps env payment p session source =
      search
        (
          keeps_rules, refund_captured_payment-Keeps, mark_failed-Keeps, audit_event-Keeps,
          complete_from_session-Keeps, mark_as_paid-Keeps, notify-Keeps,
        )
        depth 12

  pub revert_package_payment-Keeps :
      (env : Env) (payment : Payment) (p : Package) (event : Text) (refund : Bool) (extra : Details)
      → Keeps P (revert_package_payment env payment p event refund extra)
  unfolding revert_package_payment
  revert_package_payment-Keeps env payment p event refund extra =
      search
        (
          keeps_rules, refund_captured_payment-Keeps, mark_failed-Keeps, audit_event-Keeps,
          mark_as_refunded-Keeps,
        )
        depth 12

  note_restored-Keeps :
      (env : Env) (payment : Payment) (p : Package) (event : Text) (extra : Details)
      → Keeps P (note_restored env payment p event extra)
  unfolding note_restored
  note_restored-Keeps env payment p event extra = search (keeps_rules, audit_event-Keeps)

  pub restore_paid_payment-Keeps :
      (env : Env) (payment : Payment) (p : Package) (event : Text) (extra : Details)
      → Keeps P (restore_paid_payment env payment p event extra)
  unfolding restore_paid_payment
  restore_paid_payment-Keeps env payment p event extra =
      Keeps-bind _ _ (by_payment_write payment.pk _ (completion-IsPaymentWrite true)) λ _.
        Keeps-bind _ _
          (mark_as_paid-Keeps env p payment.payer (or_text payment.payer_currency (text "usd")))
          λ _. note_restored-Keeps env payment p event extra
