-- ===== src/Reimbursements/Checkout.antt =====
-- A payer's checkout (`create_package_checkout` of reimbursements/services.py): the attempt is
-- claimed by a payment row in a transaction, and then the session is created at Stripe.

pub mod Claims
pub mod Settles
use papertrail.Base.{
  ℕ, ◌+◌, ◌-◌, Bool, true, false, not, ◌&&◌, Option, none, some, List, [], ◌∷◌, ◌++◌, ◌==◌, ltb,
  if◌then◌else◌, Text, text, text_eq, is_blank, ℤ, pos, Result, ok, raised, Error, stripe_error,
  invalid_request, rate_unavailable, pure, raise, lift, ◌>>=◌, ◌>>◌, first, latest, remove,
  starts_with,
}
use papertrail.Database.{Db, World, Env, M, atomic, modify_db, gets_db}
use papertrail.Money.PlatformFee.{compute}
use papertrail.Records.Model.{User}
use papertrail.Reimbursements.Model.{Package, Payment, CheckoutArgs, LineItem, Session, is_open}
use papertrail.Reimbursements.Package.{Refusal, can_be_paid_by, payout_account_id}
use papertrail.Reimbursements.Payment.{save_payment}
use papertrail.Reimbursements.LineItems.{CheckoutItems, build_line_items}

-- The user-facing messages.
pub data CheckoutError : Type 0 where
  not_payable : Refusal → CheckoutError
  gone in_flight nothing_payable no_rates stripe_failed : CheckoutError

pub data CheckoutOutcome : Type 0 where
  redirect : Text → CheckoutOutcome
  refused : CheckoutError → CheckoutOutcome

abbrev pub pending_session_prefix : Text
pending_session_prefix = text "pending:"

-- 15 minutes, in seconds.
abbrev pub pending_session_staleness : ℕ
pending_session_staleness = 900

-- `lock_for_payment`; it waits for a row that another transaction has locked.
unfoldable pub lock_for_payment : ℕ → Db → Option Package
lock_for_payment pk d = first (λ p. p.pk == pk && is_open p.status) d.packages

-- `payments.filter(is_completed=False).order_by("-created_at").first()`.
unfoldable pub latest_incomplete : ℕ → Db → Option Payment
latest_incomplete pk d =
    latest (λ x. x.created_at) (λ x. x.package_pk == pk && not x.is_completed) d.payments

unfoldable pub url_of : Result Session → Option Text
url_of (raised e) = none
url_of (ok session) =
    if text_eq session.session_status (text "open") && not (is_blank session.url)
    then some session.url
    else none

-- `resumable_session_url`.
unfoldable pub resumable_session_url : Env → Package → Db → Option Text
unfolding url_of
resumable_session_url env p d = elim (latest_incomplete p.pk d) [
  | none ↦ none
  | some payment ↦ url_of (env.stripe.retrieve_checkout_session payment.stripe_checkout_session_id)
]

-- What the first transaction ends with.
pub data Claim : Type 0 where
  stopped : CheckoutOutcome → Claim
  claimed : Package → Payment → CheckoutItems → Claim

-- `PackagePayment.objects.create(...)`.
abbrev pub pending_payment : Env → Package → Option User → Text → CheckoutItems → ℕ → Payment
pending_payment env locked payer currency items pk = record {
  pk = pk;
  package_pk = locked.pk;
  payer = payer;
  stripe_checkout_session_id = pending_session_prefix ++ env.fresh_uuid;
  stripe_payment_intent_id = [];
  amount_paid = items.total_amount;
  expected_amount_cents = some items.total_cents;
  payer_currency = currency;
  is_completed = false;
  created_at = env.now;
}

abbrev pub insert_payment : Payment → Db → Db
insert_payment payment d = record d { payments = payment ∷ d.payments; next_pk = d.next_pk + 1 }

abbrev pub delete_payment : ℕ → Db → Db
delete_payment pk d = record d { payments = remove (λ x. x.pk == pk) d.payments }

unfoldable pub claim_lines :
    Env → Package → Option User → Text → CheckoutItems → List LineItem → M Claim
claim_lines env locked payer currency items [] = pure (stopped (refused nothing_payable))
claim_lines env locked payer currency items (line ∷ lines) = do
  payment ← gets_db (λ d. pending_payment env locked payer currency items d.next_pk)
  modify_db (insert_payment payment)
  pure (claimed locked payment items)

-- Build the items and record the attempt.
unfoldable pub claim_attempt : Env → Package → Option User → Text → M Claim
unfolding claim_lines
claim_attempt env locked payer currency = do
  built ← gets_db (build_line_items env locked currency)
  items ← lift built
  claim_lines env locked payer currency items items.line_items

-- An attempt that has its session: the payer is sent to it while it is open.
unfoldable pub resume : Env → Package → Option User → Text → M Claim
resume env locked payer currency = do
  existing ← gets_db (resumable_session_url env locked)
  elim existing [
    | some url ↦ pure (stopped (redirect url))
    | none ↦ claim_attempt env locked payer currency
  ]

unfoldable pub is_pending : Payment → Bool
is_pending payment = starts_with payment.stripe_checkout_session_id pending_session_prefix

-- A crashed attempt is removed.
unfoldable pub reclaim : Env → Package → Option User → Text → Payment → M Claim
reclaim env locked payer currency earlier = do
  modify_db (delete_payment earlier.pk)
  claim_attempt env locked payer currency

-- What an earlier attempt leaves to do.
unfoldable pub claim_after : Env → Package → Option User → Text → Option Payment → M Claim
unfolding is_pending reclaim
claim_after env locked payer currency none = claim_attempt env locked payer currency
claim_after env locked payer currency (some earlier) =
    if not (is_pending earlier)
    then resume env locked payer currency
    else if ltb (env.now - earlier.created_at) pending_session_staleness
    then pure (stopped (refused in_flight))
    else reclaim env locked payer currency earlier

unfoldable pub claim_row : Env → Option User → Text → Option Package → M Claim
unfolding claim_after
claim_row env payer currency none = pure (stopped (refused gone))
claim_row env payer currency (some locked) = do
  earlier ← gets_db (latest_incomplete locked.pk)
  claim_after env locked payer currency earlier

unfoldable pub no_rates_refused : Result Claim → Result Claim
no_rates_refused (raised rate_unavailable) = ok (stopped (refused no_rates))
no_rates_refused r = r

-- The transaction, and the handler of `ExchangeRateUnavailableError` around it.
unfoldable pub claim_checkout : Env → Package → Option User → Text → M Claim
unfolding claim_row no_rates_refused
claim_checkout env p payer currency w =
    let (r, w') = (atomic do claim_row env payer currency (← gets_db (lock_for_payment p.pk))) w in
    (no_rates_refused r, w')

-- The application fee and the transfer to the creator's account.
unfoldable pub transfer_to : Env → ℕ → Text → Option Text → Result (Option (ℤ × Text))
transfer_to env total currency none = ok none
transfer_to env total currency (some account) =
    elim (compute env.fees (pos total) currency env.rates) [
      | ok fee ↦ ok (some (fee, account))
      | raised e ↦ raised e
    ]

abbrev pub checkout_args : Package → CheckoutItems → Text → Text → Option (ℤ × Text) → CheckoutArgs
checkout_args p items success_url cancel_url transfer = record {
  line_items = items.line_items;
  package_uuid = p.uuid;
  success_url = success_url;
  cancel_url = cancel_url;
  transfer = transfer;
}

failed_session : Payment → M CheckoutOutcome
failed_session payment = do modify_db (delete_payment payment.pk); pure (refused stripe_failed)

-- The handler of `StripeError`, and the row's real session.
unfoldable pub save_session : Payment → Result Session → M CheckoutOutcome
unfolding failed_session
save_session payment (raised stripe_error) = failed_session payment
save_session payment (raised invalid_request) = failed_session payment
save_session payment (raised e) = raise e
save_session payment (ok session) = do
  modify_db (save_payment payment.pk λ row. record row { stripe_checkout_session_id = session.id })
  pure (redirect session.url)

-- What follows the first transaction.
unfoldable pub open_session : Env → Package → Text → Text → Text → Claim → M CheckoutOutcome
unfolding save_session
open_session env p currency success_url cancel_url (stopped outcome) = pure outcome
open_session env p currency success_url cancel_url (claimed locked payment items) = do
  account ← gets_db (payout_account_id locked)
  transfer ← lift (transfer_to env items.total_cents currency account)
  save_session payment (
      env.stripe.create_checkout_session (checkout_args p items success_url cancel_url transfer)
        (env.checkout_key payment.pk))

unfoldable pub checkout_unless :
    Env → Package → Option User → Text → Text → Text → Option Refusal → M CheckoutOutcome
unfolding open_session
checkout_unless env p payer currency success_url cancel_url (some refusal) =
    pure (refused (not_payable refusal))
checkout_unless env p payer currency success_url cancel_url none = do
  attempt ← claim_checkout env p payer currency
  open_session env p currency success_url cancel_url attempt

-- `create_package_checkout`.
unfoldable pub create_package_checkout :
    Env → Package → Option User → Text → Text → Text → M CheckoutOutcome
unfolding checkout_unless
create_package_checkout env p payer currency success_url cancel_url = do
  refusal ← gets_db (can_be_paid_by env p payer)
  checkout_unless env p payer currency success_url cancel_url refusal
