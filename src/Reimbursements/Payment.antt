-- ===== src/Reimbursements/Payment.antt =====
-- A payment of a package (`PackagePayment` of reimbursements/models.py), and the refund of its
-- captured charge (reimbursements/webhooks.py and services.py).
use papertrail.Base.{
  ℕ, Bool, true, false, not, ◌&&◌, ◌||◌, Option, none, some, List, ◌∷◌, ◌==◌, leb, if◌then◌else◌,
  Text, text_eq, is_blank, or_text, lower, ℤ, pos, ◌-ℤ◌, abs, eqb_ℤ, Result, ok, raised, Error,
  stripe_error, invalid_request, pure, raise, update,
}
use papertrail.Database.{Db, Refund, Env, M, modify_db}
use papertrail.Money.Currencies.{to_stripe_amount}
use papertrail.Reimbursements.Model.{Payment, Session}

amount_as_expected : Payment → ℤ → Option ℕ → Bool
amount_as_expected payment amount_total (some expected) = eqb_ℤ amount_total (pos expected)
amount_as_expected payment amount_total none =
    leb (abs (amount_total -ℤ to_stripe_amount payment.amount_paid payment.payer_currency)) 1

amount_settled : Payment → Option ℤ → Bool
unfolding amount_as_expected
amount_settled payment none = false
amount_settled payment (some amount_total) =
    amount_as_expected payment amount_total payment.expected_amount_cents

unfoldable pub amount_matches : Payment → Session → Bool
unfolding amount_settled
amount_matches payment session =
    text_eq (lower (or_text session.currency payment.payer_currency)) (lower payment.payer_currency)
    && amount_settled payment session.amount_total

abbrev pub save_payment : ℕ → (Payment → Payment) → Db → Db
save_payment pk f d = record d { payments = update (λ p. p.pk == pk) f d.payments }

-- The intent that the payment holds afterwards: the session's, unless it has none.
abbrev pub completed_intent : Payment → Session → Text
completed_intent payment session = or_text session.payment_intent payment.stripe_payment_intent_id

unfoldable pub complete_from_session : Payment → Session → M (Unit {0})
complete_from_session payment session = modify_db (
    save_payment payment.pk λ row. record row {
      is_completed = true;
      stripe_payment_intent_id = completed_intent payment session;
    })

unfoldable pub mark_failed : Payment → M (Unit {0})
mark_failed payment = modify_db (save_payment payment.pk λ row. record row { is_completed = false })

-- A request that Stripe has granted is noted, with the two parts of its idempotency key. While Stripe
-- keeps the key, it answers a repeated request with the refund that it has made.
abbrev pub add_refund : Text → Text → List Refund → List Refund
add_refund intent reason refunds = record { payment_intent = intent; reason = reason } ∷ refunds

-- `except StripeError`, with `InvalidRequestError` among its classes.
abbrev pub is_stripe_error : Error → Bool
is_stripe_error stripe_error = true
is_stripe_error invalid_request = true
is_stripe_error _ = false

-- The request for a refund, and the handlers of its errors.
unfoldable pub refunded_by : Result (Unit {0}) → Text → Text → M Bool
refunded_by (raised e) intent reason = if is_stripe_error e then pure false else raise e
refunded_by (ok done) intent reason =
    (λ w. (ok true, record w { refunds = add_refund intent reason w.refunds }))

-- `_refund_captured_payment`.
unfoldable pub refund_captured_payment : Env → Payment → Text → M Bool
unfolding refunded_by
refund_captured_payment env payment event =
    if not payment.is_completed || is_blank payment.stripe_payment_intent_id
    then pure false
    else refunded_by (env.stripe.create_refund payment.stripe_payment_intent_id event)
        payment.stripe_payment_intent_id event
