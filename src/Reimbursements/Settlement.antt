-- ===== src/Reimbursements/Settlement.antt =====
-- reimbursements/webhooks.py: what settles a payment, reverts it, or restores it. The payment and
-- its package are the objects that were read at the start.
use papertrail.Base.{
  ℕ, Bool, true, false, not, ◌&&◌, Option, none, some, [], ◌∷◌, if◌then◌else◌, Text, text, or_text,
  pure, ◌>>=◌, ◌>>◌,
}
use papertrail.Database.{Db, Env, M, modify_db, create_audit_log}
use papertrail.Records.Model.{User, Json, null, str, bool, decimal, Details, update_record}
use papertrail.Reimbursements.Model.{Package, Payment, Session, is_paid, is_deleted}
use papertrail.Reimbursements.Package.{mark_as_paid, mark_as_refunded}
use papertrail.Reimbursements.Payment.{
  amount_matches, save_payment, complete_from_session, mark_failed, refund_captured_payment,
}

-- An audit entry of the package's creator.
unfoldable pub audit_event : Env → Package → Details → M (Unit {0})
audit_event env p details = create_audit_log env (some p.creator.pk) update_record none details

abbrev payer_pk : Option User → Option ℕ
payer_pk none = none
payer_pk (some u) = some u.pk

abbrev payer_email : Option User → Json
payer_email none = null
payer_email (some u) = str u.email

unfoldable pub notify_on_commit : Package → Payment → Db → Db
notify_on_commit p payment d = record d {
  on_commit = record { package_pk = p.pk; payer = payer_pk payment.payer } ∷ d.on_commit;
}

settle_deleted : Env → Payment → Package → Session → M Bool
settle_deleted env payment p session = do
  refund_captured_payment env payment (text "package_deleted_before_settlement")
  mark_failed payment
  audit_event env p (
      ("event", str (text "checkout_after_delete_refunded"))
      ∷ ("package_uuid", str p.uuid)
      ∷ ("stripe_session_id", str session.id)
      ∷ [])
  pure false

settle_duplicate : Env → Payment → M Bool
settle_duplicate env payment = do
  refund_captured_payment env payment (text "duplicate_settlement")
  mark_failed payment
  pure false

settle : Env → Payment → Package → Session → Text → M Bool
unfolding notify_on_commit
settle env payment p session source = do
  complete_from_session payment session
  mark_as_paid env p payment.payer (or_text payment.payer_currency (text "usd"))
  if payment.is_completed then pure true else do
    audit_event env p (
        ("event", str source)
        ∷ ("package_uuid", str p.uuid)
        ∷ ("stripe_session_id", str session.id)
        ∷ ("payer_email", payer_email payment.payer)
        ∷ ("amount", decimal payment.amount_paid)
        ∷ [])
    modify_db (notify_on_commit p payment)
    pure true

unfoldable pub apply_paid_session : Env → Payment → Package → Session → Text → M Bool
unfolding settle_deleted settle_duplicate settle
apply_paid_session env payment p session source =
    if not (amount_matches payment session)
    then pure false
    else if is_deleted p
    then settle_deleted env payment p session
    else if is_paid p.status && not payment.is_completed
    then settle_duplicate env payment
    else settle env payment p session source

revert : Env → Payment → Package → Text → Bool → Details → M (Unit {0})
revert env payment p event refunded extra = do
  mark_failed payment
  mark_as_refunded env p
  audit_event env p (
      ("event", str event)
      ∷ ("package_uuid", str p.uuid)
      ∷ ("payer_refunded", bool refunded)
      ∷ extra)

-- A captured charge that could not be refunded leaves the package settled.
revert_refunding : Env → Payment → Package → Text → Details → M (Unit {0})
unfolding revert
revert_refunding env payment p event extra = do
  refunded ← refund_captured_payment env payment event
  if not refunded && payment.is_completed
      then audit_event env p (
          ("event", str (text "auto_refund_failed"))
          ∷ ("package_uuid", str p.uuid)
          ∷ ("payment_intent", str payment.stripe_payment_intent_id)
          ∷ ("trigger", str event)
          ∷ extra)
      else revert env payment p event refunded extra

-- `_revert_package_payment`.
unfoldable pub revert_package_payment :
    Env → Payment → Package → Text → Bool → Details → M (Unit {0})
unfolding revert_refunding
revert_package_payment env payment p event refund extra =
    if refund
    then revert_refunding env payment p event extra
    else revert env payment p event false extra

unfoldable pub note_restored : Env → Payment → Package → Text → Details → M (Unit {0})
note_restored env payment p event extra =
    if payment.is_completed && is_paid p.status
    then pure tt
    else audit_event env p (("event", str event) ∷ ("package_uuid", str p.uuid) ∷ extra)

-- `_restore_paid_payment`.
unfoldable pub restore_paid_payment : Env → Payment → Package → Text → Details → M (Unit {0})
unfolding note_restored
restore_paid_payment env payment p event extra = do
  modify_db (save_payment payment.pk λ row. record row { is_completed = true })
  mark_as_paid env p payment.payer (or_text payment.payer_currency (text "usd"))
  note_restored env payment p event extra
