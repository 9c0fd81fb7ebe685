-- ===== src/Reimbursements/Writes/Events.antt =====
-- Every handler of Stripe's events, and the processing of an event, keeps what the writes keep
-- (reimbursements/webhooks.py).
use papertrail.Base.{
  refl, Bool, true, false, Option, none, some, Text, does_not_exist, stripe_error, invalid_request,
  not_owner, self_share, rate_unavailable, bulk_limit_exceeded, integrity_error, value_error,
  api_error, Result, ok, raised, Keeps, Keeps-pure, keeps_rules,
}
use papertrail.Database.{World, Env, M}
use papertrail.Reimbursements.Model.{Package, Payment, Session, PaymentIntent, Charge}
use papertrail.Reimbursements.Lookup.{
  or_find, unknown_session, payment_for_checkout_session, link_payment, get_or_link_payment,
  from_intent, payment_for_payment_intent, from_charge, payment_from_charge,
}
use papertrail.Reimbursements.Webhooks.{
  AccountUpdate, Failure, ChargeRefund, Dispute, EventBody, session_completed, async_succeeded,
  async_failed, account_updated, transfer_failed, charge_failed, charge_refunded, dispute_created,
  dispute_updated, dispute_closed, unhandled, Event, if_found, save_account,
  handle_checkout_session_completed, handle_async_payment, handle_account_updated, find_failed,
  handle_payment_failure, handle_charge_refunded, handle_dispute, handle, mark_processed,
  process_stripe_event,
}
use papertrail.Reimbursements.Writes.{IsSideWrite, KeptByWrites}
use papertrail.Reimbursements.Writes.Handlers.{Keeps-atomic, Keeps-gets_db}
use papertrail.Reimbursements.Writes.Settlement.{
  mark_failed-Keeps, audit_event-Keeps, apply_paid_session-Keeps, revert_package_payment-Keeps,
  restore_paid_payment-Keeps,
}

module _ {P : World → Type 0} (k : KeptByWrites P) where
  open k use {by_side_write, by_payment_write}

  unknown_session-Keeps : (r : Result Session) → Keeps P (unknown_session r)
  unfolding unknown_session
  unknown_session-Keeps (ok s) = record { at = λ w h. h }
  unknown_session-Keeps (raised does_not_exist) = record { at = λ w h. h }
  unknown_session-Keeps (raised stripe_error) = record { at = λ w h. h }
  unknown_session-Keeps (raised invalid_request) = record { at = λ w h. h }
  unknown_session-Keeps (raised not_owner) = record { at = λ w h. h }
  unknown_session-Keeps (raised self_share) = record { at = λ w h. h }
  unknown_session-Keeps (raised rate_unavailable) = record { at = λ w h. h }
  unknown_session-Keeps (raised bulk_limit_exceeded) = record { at = λ w h. h }
  unknown_session-Keeps (raised integrity_error) = record { at = λ w h. h }
  unknown_session-Keeps (raised value_error) = record { at = λ w h. h }
  unknown_session-Keeps (raised api_error) = record { at = λ w h. h }

  or_find-Keeps :
      (found : Option (Payment × Package)) (m : M (Option (Payment × Package)))
      → Keeps P m
      → Keeps P (or_find found m)
  or_find-Keeps none m km = km
  or_find-Keeps (some x) m km = Keeps-pure (some x)

  payment_for_checkout_session-Keeps :
      (env : Env) (id : Text) → Keeps P (payment_for_checkout_session env id)
  unfolding payment_for_checkout_session
  payment_for_checkout_session-Keeps env id =
      search (keeps_rules, Keeps-gets_db k.access, or_find-Keeps, unknown_session-Keeps)

  link_payment-Keeps :
      (intent : Text) (found : Option (Payment × Package)) → Keeps P (link_payment intent found)
  unfolding link_payment
  link_payment-Keeps intent none = Keeps-pure none
  link_payment-Keeps intent (some (payment, p)) = record {
    at = λ w h. (by_payment_write payment.pk _ (λ p. refl)).at w h;
  }

  get_or_link_payment-Keeps : (uuid intent : Text) → Keeps P (get_or_link_payment uuid intent)
  unfolding get_or_link_payment
  get_or_link_payment-Keeps uuid intent =
      search (keeps_rules, Keeps-gets_db k.access, link_payment-Keeps)

  from_intent-Keeps : (id : Text) (intent : Option PaymentIntent) → Keeps P (from_intent id intent)
  unfolding from_intent
  from_intent-Keeps id none = Keeps-pure none
  from_intent-Keeps id (some intent) = search (keeps_rules, get_or_link_payment-Keeps)

  payment_for_payment_intent-Keeps :
      (env : Env) (id : Text) → Keeps P (payment_for_payment_intent env id)
  unfolding payment_for_payment_intent
  payment_for_payment_intent-Keeps env id =
      search (keeps_rules, Keeps-gets_db k.access, or_find-Keeps, from_intent-Keeps)

  from_charge-Keeps : (env : Env) (charge : Option Charge) → Keeps P (from_charge env charge)
  unfolding from_charge
  from_charge-Keeps env none = Keeps-pure none
  from_charge-Keeps env (some charge) = search (keeps_rules, payment_for_payment_intent-Keeps)

  payment_from_charge-Keeps : (env : Env) (id : Text) → Keeps P (payment_from_charge env id)
  unfolding payment_from_charge
  payment_from_charge-Keeps env id = search (keeps_rules, from_charge-Keeps)

  if_found-Keeps :
      (found : Option (Payment × Package)) (body : Payment → Package → M (Unit {0}))
      → ((payment : Payment) (p : Package) → Keeps P (body payment p))
      → Keeps P (if_found found body)
  if_found-Keeps none body kb = Keeps-pure tt
  if_found-Keeps (some (payment, p)) body kb = kb payment p

  ruleset found_rules = (keeps_rules, if_found-Keeps)

  session_completed-Keeps :
      (env : Env) (session : Session) → Keeps P (handle_checkout_session_completed env session)
  unfolding handle_checkout_session_completed
  session_completed-Keeps env session =
      search (found_rules, payment_for_checkout_session-Keeps, apply_paid_session-Keeps k) depth 12

  async_payment-Keeps :
      (env : Env) (succeeded : Bool) (session : Session)
      → Keeps P (handle_async_payment env succeeded session)
  unfolding handle_async_payment
  async_payment-Keeps env succeeded session =
      search
        (
          found_rules,
          payment_for_checkout_session-Keeps,
          apply_paid_session-Keeps k,
          mark_failed-Keeps k,
        )
        depth 12

  save_account-IsSideWrite : (account : AccountUpdate) → IsSideWrite (save_account account)
  unfolding save_account
  save_account-IsSideWrite account d = (refl, refl, refl)

  account_updated-Keeps : (account : AccountUpdate) → Keeps P (handle_account_updated account)
  unfolding handle_account_updated
  account_updated-Keeps account = search (keeps_rules, by_side_write, save_account-IsSideWrite)

  find_failed-Keeps :
      (env : Env) (is_transfer : Bool) (obj : Failure) → Keeps P (find_failed env is_transfer obj)
  unfolding find_failed
  find_failed-Keeps env is_transfer obj =
      search (keeps_rules, payment_for_payment_intent-Keeps, payment_from_charge-Keeps)

  payment_failure-Keeps :
      (env : Env) (is_transfer : Bool) (obj : Failure)
      → Keeps P (handle_payment_failure env is_transfer obj)
  unfolding handle_payment_failure
  payment_failure-Keeps env is_transfer obj =
      search (found_rules, find_failed-Keeps, revert_package_payment-Keeps k) depth 12

  charge_refunded-Keeps :
      (env : Env) (charge : ChargeRefund) → Keeps P (handle_charge_refunded env charge)
  unfolding handle_charge_refunded
  charge_refunded-Keeps env charge =
      search
        (
          found_rules,
          payment_for_payment_intent-Keeps,
          revert_package_payment-Keeps k,
          audit_event-Keeps k,
        )
        depth 12

  dispute-Keeps :
      (env : Env) (closed : Bool) (dispute : Dispute) → Keeps P (handle_dispute env closed dispute)
  unfolding handle_dispute
  dispute-Keeps env closed dispute =
      search
        (
          found_rules,
          payment_from_charge-Keeps,
          restore_paid_payment-Keeps k,
          revert_package_payment-Keeps k,
          audit_event-Keeps k,
        )
        depth 12

  handle-Keeps : (env : Env) (body : EventBody) → Keeps P (handle env body)
  unfolding handle
  handle-Keeps env (session_completed s) = session_completed-Keeps env s
  handle-Keeps env (async_succeeded s) = async_payment-Keeps env true s
  handle-Keeps env (async_failed s) = async_payment-Keeps env false s
  handle-Keeps env (account_updated a) = account_updated-Keeps a
  handle-Keeps env (transfer_failed f) = payment_failure-Keeps env true f
  handle-Keeps env (charge_failed f) = payment_failure-Keeps env false f
  handle-Keeps env (charge_refunded c) = charge_refunded-Keeps env c
  handle-Keeps env (dispute_created d) = dispute-Keeps env false d
  handle-Keeps env (dispute_updated d) = dispute-Keeps env false d
  handle-Keeps env (dispute_closed d) = dispute-Keeps env true d
  handle-Keeps env unhandled = Keeps-pure tt

  mark_processed-IsSideWrite : (id : Text) → IsSideWrite (mark_processed id)
  unfolding mark_processed
  mark_processed-IsSideWrite id d = (refl, refl, refl)

  pub process_stripe_event-Keeps :
      (env : Env) (event : Event) → Keeps P (process_stripe_event env event)
  unfolding process_stripe_event
  process_stripe_event-Keeps env event =
      search
        (
          keeps_rules,
          Keeps-atomic k.access,
          Keeps-gets_db k.access,
          handle-Keeps,
          by_side_write,
          mark_processed-IsSideWrite,
        )
        depth 9
