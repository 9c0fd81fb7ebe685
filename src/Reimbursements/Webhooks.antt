-- ===== src/Reimbursements/Webhooks.antt =====
-- reimbursements/webhooks.py: the handlers of Stripe's events, and the processing of one event.
use Prim.Native.String.{String}
use papertrail.Base.{
  Bool, true, false, not, ◌&&◌, ◌||◌, Option, none, some, [], ◌∷◌, if◌then◌else◌, Text, text,
  text_eq, is_blank, or_text, ℤ, leb_ℤ, pure, ◌>>=◌, ◌>>◌, update, exists,
}
use papertrail.Database.{Db, Env, M, atomic, modify_db, gets_db}
use papertrail.Records.Model.{Json, str, num, bool, Details}
use papertrail.Reimbursements.Model.{Package, Payment, Session}
use papertrail.Reimbursements.Payment.{mark_failed}
use papertrail.Reimbursements.Settlement.{
  audit_event, apply_paid_session, revert_package_payment, restore_paid_payment,
}
use papertrail.Reimbursements.Lookup.{
  payment_for_checkout_session, payment_for_payment_intent, payment_from_charge,
}

pub record AccountUpdate : Type 0 where
  pub id : Text
  pub details_submitted : Bool
  pub charges_enabled : Bool
  pub payouts_enabled : Bool

-- The object of `transfer.failed` or `charge.failed`.
pub record Failure : Type 0 where
  pub payment_intent : Text
  pub source_transaction : Text
  pub failure_message : Text

pub record ChargeRefund : Type 0 where
  pub payment_intent : Text
  pub amount_refunded : ℤ
  pub amount_captured : ℤ

pub record Dispute : Type 0 where
  pub id : Text
  pub dispute_status : Text
  pub charge : Text

-- The object of an event under its type; `unhandled` is any type without a handler.
pub data EventBody : Type 0 where
  session_completed async_succeeded async_failed : Session → EventBody
  account_updated : AccountUpdate → EventBody
  transfer_failed charge_failed : Failure → EventBody
  charge_refunded : ChargeRefund → EventBody
  dispute_created dispute_updated dispute_closed : Dispute → EventBody
  unhandled : EventBody

pub record Event : Type 0 where
  pub id : Text
  pub body : EventBody

-- The rest of a handler, once it has looked for the payment.
abbrev pub if_found : Option (Payment × Package) → (Payment → Package → M (Unit {0})) → M (Unit {0})
if_found none k = pure tt
if_found (some (payment, p)) k = k payment p

-- `_handle_checkout_session_completed`.
unfoldable pub handle_checkout_session_completed : Env → Session → M (Unit {0})
handle_checkout_session_completed env session =
    if not (text_eq session.payment_status (text "paid")) || is_blank session.package_uuid
    then pure tt
    else do
      found ← payment_for_checkout_session env session.id
      if_found found
          λ payment p. apply_paid_session env payment p session (text "package_paid") >> pure tt

-- `_handle_async_payment`.
unfoldable pub handle_async_payment : Env → Bool → Session → M (Unit {0})
handle_async_payment env succeeded session = if is_blank session.package_uuid then pure tt else do
  found ← payment_for_checkout_session env session.id
  if_found found λ payment p.
      if succeeded
      then apply_paid_session env payment p session (text "async_payment_succeeded") >> pure tt
      else mark_failed payment

unfoldable pub save_account : AccountUpdate → Db → Db
save_account account d = record d {
  accounts =
      update (λ a. text_eq a.stripe_account_id account.id)
        (λ a. record a {
          stripe_details_submitted = account.details_submitted;
          charges_enabled = account.charges_enabled;
          payouts_enabled = account.payouts_enabled;
        })
        d.accounts;
}

-- `_handle_account_updated`.
unfoldable pub handle_account_updated : AccountUpdate → M (Unit {0})
handle_account_updated account =
    if is_blank account.id then pure tt else modify_db (save_account account)

unfoldable pub find_failed : Env → Bool → Failure → M (Option (Payment × Package))
find_failed env is_transfer obj =
    if not (is_blank obj.payment_intent)
    then payment_for_payment_intent env obj.payment_intent
    else if is_transfer && not (is_blank obj.source_transaction)
    then payment_from_charge env obj.source_transaction
    else pure none

-- `_handle_payment_failure`.
unfoldable pub handle_payment_failure : Env → Bool → Failure → M (Unit {0})
unfolding find_failed
handle_payment_failure env is_transfer obj = do
  found ← find_failed env is_transfer obj
  if_found found λ payment p.
      revert_package_payment env payment p
        (if is_transfer then text "transfer.failed" else text "charge.failed") true
        (("payment_intent", str (or_text obj.payment_intent payment.stripe_payment_intent_id))
          ∷ ("failure_message", str (or_text obj.failure_message (text "unknown reason")))
          ∷ [])

refund_details : ChargeRefund → Bool → Details
refund_details charge full =
    ("payment_intent", str charge.payment_intent)
    ∷ ("amount_refunded_cents", num charge.amount_refunded)
    ∷ ("amount_captured_cents", num charge.amount_captured)
    ∷ ("is_full_refund", bool full)
    ∷ []

-- `_handle_charge_refunded`.
unfoldable pub handle_charge_refunded : Env → ChargeRefund → M (Unit {0})
unfolding refund_details
handle_charge_refunded env charge = if is_blank charge.payment_intent then pure tt else do
  found ← payment_for_payment_intent env charge.payment_intent
  if_found found λ payment p.
      if leb_ℤ charge.amount_captured charge.amount_refunded
      then revert_package_payment env payment p (text "charge_refunded") false
          (refund_details charge true)
      else audit_event env p (
          ("event", str (text "charge_refunded"))
          ∷ ("package_uuid", str p.uuid)
          ∷ refund_details charge false)

-- `_handle_dispute`.
unfoldable pub handle_dispute : Env → Bool → Dispute → M (Unit {0})
handle_dispute env closed dispute = if is_blank dispute.charge then pure tt else do
  let dispute_id : String × Json = ("dispute_id", str (or_text dispute.id (text "unknown")))
  let status = or_text dispute.dispute_status (text "unknown")
  found ← payment_from_charge env dispute.charge
  if_found found λ payment p.
      if text_eq status (text "won")
      then restore_paid_payment env payment p (text "charge_dispute_won") (dispute_id ∷ [])
      else if closed && text_eq status (text "lost")
      then revert_package_payment env payment p (text "charge_dispute_lost") false
          (dispute_id ∷ ("status", str status) ∷ [])
      else audit_event env p (
          ("event", str (text "charge_dispute_open"))
          ∷ ("package_uuid", str p.uuid)
          ∷ dispute_id
          ∷ ("status", str status)
          ∷ [])

-- The table `_EVENT_HANDLERS`.
unfoldable pub handle : Env → EventBody → M (Unit {0})
handle env (session_completed s) = handle_checkout_session_completed env s
handle env (async_succeeded s) = handle_async_payment env true s
handle env (async_failed s) = handle_async_payment env false s
handle env (account_updated a) = handle_account_updated a
handle env (transfer_failed f) = handle_payment_failure env true f
handle env (charge_failed f) = handle_payment_failure env false f
handle env (charge_refunded c) = handle_charge_refunded env c
handle env (dispute_created d) = handle_dispute env false d
handle env (dispute_updated d) = handle_dispute env false d
handle env (dispute_closed d) = handle_dispute env true d
handle env unhandled = pure tt

-- The idempotency marker of an event.
unfoldable pub mark_processed : Text → Db → Db
mark_processed id d = record d { processed = if is_blank id then d.processed else id ∷ d.processed }

unfoldable pub is_processed : Text → Db → Bool
is_processed id d = not (is_blank id) && exists (text_eq id) d.processed

unfoldable pub process_once : Env → Event → M (Unit {0})
process_once env event = do
  seen ← gets_db (is_processed event.id)
  if seen then pure tt else do handle env event.body; modify_db (mark_processed event.id)

unfoldable pub process_stripe_event : Env → Event → M (Unit {0})
unfolding process_once
process_stripe_event env event = atomic (process_once env event)
