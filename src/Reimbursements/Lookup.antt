-- ===== src/Reimbursements/Lookup.antt =====
-- reimbursements/webhooks.py: the payment that an object of Stripe is about.
use papertrail.Base.{
  Bool, ◌&&◌, Option, none, some, [], ◌==◌, if◌then◌else◌, Text, text_eq, is_blank, invalid_request,
  does_not_exist, Result, ok, raised, pure, raise, lift, ◌>>=◌, ◌>>◌, first, latest,
}
use papertrail.Database.{Db, Env, M, modify_db, gets_db}
use papertrail.Reimbursements.Model.{Package, Payment, Session, PaymentIntent, Charge}
use papertrail.Reimbursements.Payment.{save_payment}

unfoldable pub package_of : Db → Payment → Option Package
package_of d payment = first (λ p. p.pk == payment.package_pk) d.packages

-- `select_related("package")` on the row that was found.
join : Db → Option Payment → Option (Payment × Package)
join d none = none
join d (some payment) = elim (package_of d payment) [ none ↦ none | some p ↦ some (payment, p) ]

-- The row that was found, or else what `m` finds.
abbrev pub or_find : {A : Type 0} → Option A → M (Option A) → M (Option A)
or_find (some a) m = pure (some a)
or_find none m = m

abbrev has_session : Text → Payment → Bool
has_session id payment = text_eq payment.stripe_checkout_session_id id

-- The handler of `DoesNotExist`: a session that Stripe does not know is skipped.
unfoldable pub unknown_session : Result Session → M (Option (Payment × Package))
unknown_session (ok session) = raise does_not_exist
unknown_session (raised invalid_request) = pure none
unknown_session (raised _) = raise does_not_exist

-- `_payment_for_checkout_session`.
unfoldable pub payment_for_checkout_session : Env → Text → M (Option (Payment × Package))
unfolding join unknown_session
payment_for_checkout_session env session_id = do
  found ← gets_db (λ d. join d (first (has_session session_id) d.payments))
  or_find found (unknown_session (env.stripe.retrieve_checkout_session session_id))

-- `_retrieve_stripe_object`: an object that Stripe does not know is none, other errors pass.
abbrev retrieved {ℓ} : {A : Type ℓ} → Result A → Result (Option A)
retrieved (ok a) = ok (some a)
retrieved (raised invalid_request) = ok none
retrieved (raised e) = raised e

unfoldable pub uuid_of : Db → Payment → Text
uuid_of d payment = elim (package_of d payment) [ none ↦ [] | some p ↦ p.uuid ]

unfoldable pub link_payment : Text → Option (Payment × Package) → M (Option (Payment × Package))
link_payment intent none = pure none
link_payment intent (some (payment, p)) = do
  modify_db (save_payment payment.pk λ row. record row { stripe_payment_intent_id = intent })
  pure (some (record payment { stripe_payment_intent_id = intent }, p))

-- `_get_or_link_payment`: the latest payment of the package that has no intent yet.
unfoldable pub get_or_link_payment : Text → Text → M (Option (Payment × Package))
unfolding join link_payment uuid_of
get_or_link_payment package_uuid intent = do
  found ← gets_db (λ d. join d (
      latest (λ x. x.created_at)
        (λ x. text_eq (uuid_of d x) package_uuid && is_blank x.stripe_payment_intent_id)
        d.payments))
  link_payment intent found

unfoldable pub from_intent : Text → Option PaymentIntent → M (Option (Payment × Package))
from_intent id none = pure none
from_intent id (some intent) =
    if is_blank intent.package_uuid then pure none else get_or_link_payment intent.package_uuid id

-- `_payment_for_payment_intent`.
unfoldable pub payment_for_payment_intent : Env → Text → M (Option (Payment × Package))
unfolding join from_intent
payment_for_payment_intent env id = do
  found ← gets_db (λ d. join d (first (λ x. text_eq x.stripe_payment_intent_id id) d.payments))
  or_find found
      do intent ← lift (retrieved (env.stripe.retrieve_payment_intent id)); from_intent id intent

unfoldable pub from_charge : Env → Option Charge → M (Option (Payment × Package))
from_charge env none = pure none
from_charge env (some charge) =
    if is_blank charge.payment_intent
    then pure none
    else payment_for_payment_intent env charge.payment_intent

-- `_payment_from_charge`.
unfoldable pub payment_from_charge : Env → Text → M (Option (Payment × Package))
unfolding from_charge
payment_from_charge env id = do
  charge ← lift (retrieved (env.stripe.retrieve_charge id))
  from_charge env charge
