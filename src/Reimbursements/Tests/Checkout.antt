-- ===== src/Reimbursements/Tests/Checkout.antt =====
-- A checkout of the package, its session, and a package that is created.
use papertrail.Base.{
  ◌≡◌, refl, none, some, [], ◌∷◌, ◌==◌, text, ok, raised, pos, first, update, stripe_error,
  rate_unavailable, AllOk, arith, exists, latest, contains, filter, lower, upper, text_eq, ◌+ℤ◌,
}
use papertrail.Database.{World, Env}
use papertrail.Money.Decimal.{
  fraction, add, ceiling, digits, divide, half_even, half_up, is_zero, quantize_half_up, multiply,
  fix, round_off, to_int, is_nonpositive, quantize_ceiling,
}
use papertrail.Money.Currencies.{get_currency_decimals, is_in, to_stripe_amount}
use papertrail.Money.ExchangeRates.{convert_strict, apply_rates, find_rate}
use papertrail.Money.PlatformFee.{compute, converted_units, cap_fee, percentage}
use papertrail.Reimbursements.Model.{account_is_active, package_is_expired, Session, LineItem}
use papertrail.Reimbursements.Package.{settled, can_be_paid_by, payout_account_id}
use papertrail.Reimbursements.Access.{active_records}
use papertrail.Reimbursements.LineItems.{
  fallback_line_item, collect_lines, line_item_for, line_item_of_balance, line_of, append_line,
  CheckoutItems, build_line_items,
}
use papertrail.Reimbursements.LineItems.Totals.{AddsUp, build_line_items-AddsUp}
use papertrail.Reimbursements.Webhooks.{session_completed, process_stripe_event, is_processed}
use papertrail.Reimbursements.Checkout.{
  redirect, refused, in_flight, stripe_failed, lock_for_payment, latest_incomplete, pending_payment,
  insert_payment, transfer_to, claim_checkout, create_package_checkout,
}
use papertrail.Reimbursements.Checkout.Claims.{
  create_package_checkout-stripe_error, create_package_checkout-claim_checkout,
  create_package_checkout-fee_unavailable,
}
use papertrail.Reimbursements.Creation.{
  user_by_email, own_active_records, create_reimbursement_package,
}
use papertrail.Reimbursements.Creation.Opens.{OpensFor, create_reimbursement_package-is_visible_to}
use papertrail.Reimbursements.Checkout.Settles.{process_stripe_event-create_package_checkout}
use papertrail.Reimbursements.Tests.{owner, payer, lunch, trip, start, env, session, stripe}

abbrev unpaid : World
unpaid = record { db = record start { payments = [] }; refunds = []; sent = [] }

abbrev started : Session
started = record session {
  session_status = text "open";
  url = text "https://pay";
  payment_status = text "unpaid";
}

abbrev shop : Env
shop = record env { stripe = record stripe { create_checkout_session = λ args key. ok started } }

abbrev lunch_line : LineItem
lunch_line = record {
  currency = text "usd";
  name = text "Lunch";
  description = text "Merchant: Cafe";
  unit_amount = 1000;
}

abbrev lunch_items : CheckoutItems
lunch_items = record {
  line_items = lunch_line ∷ [];
  total_cents = 1000;
  total_amount = fraction 1000 2;
}

items_built : build_line_items shop trip (text "usd") unpaid.db ≡ ok lunch_items
unfolding build_line_items collect_lines active_records line_item_for line_item_of_balance line_of
    append_line is_nonpositive add lower get_currency_decimals is_in to_stripe_amount ceiling digits
    divide half_even half_up is_zero quantize_half_up apply_rates find_rate multiply fix round_off
    to_int convert_strict text_eq upper first filter contains
items_built = refl

fee_known :
    transfer_to shop 1000 (text "usd") (payout_account_id trip unpaid.db)
    ≡ ok (some (pos 87, text "acct"))
unfolding transfer_to payout_account_id account_is_active compute converted_units cap_fee ◌+ℤ◌
    percentage quantize_ceiling add lower get_currency_decimals is_in to_stripe_amount ceiling
    digits divide half_even half_up is_zero quantize_half_up apply_rates find_rate multiply fix
    round_off to_int convert_strict text_eq upper first filter contains
fee_known = refl

process_stripe_event-create_package_checkout_example :
    let (result, w') = create_package_checkout shop trip (some payer) (text "usd") [] [] unpaid in
    let (done, w'') =
      process_stripe_event shop (record { id = text "evt"; body = session_completed session }) w' in
    (result ≡ ok (redirect (text "https://pay")))
    × (done ≡ ok tt)
    × (w''.db.packages ≡ update (λ q. q.pk == 1) (settled (some payer) 100) (trip ∷ []))
    × (w''.refunds ≡ [])
unfolding can_be_paid_by payout_account_id account_is_active package_is_expired first
    latest_incomplete latest is_processed exists text_eq lower
process_stripe_event-create_package_checkout_example =
    process_stripe_event-create_package_checkout shop shop trip trip (some payer) (text "usd") [] []
      (text "evt") lunch_items lunch_line [] (some (pos 87, text "acct")) started session unpaid
      refl refl refl refl refl items_built refl fee_known refl refl refl refl refl refl refl refl

create_package_checkout-claim_checkout_example :
    let w' = (claim_checkout shop trip (some payer) (text "usd") unpaid).1 in
    create_package_checkout shop trip none (text "usd") [] [] w' ≡ (ok (refused in_flight), w')
unfolding can_be_paid_by payout_account_id account_is_active package_is_expired first
    latest_incomplete latest lock_for_payment
create_package_checkout-claim_checkout_example =
    create_package_checkout-claim_checkout shop shop trip trip (some payer) none (text "usd")
      (text "usd") [] [] lunch_items lunch_line [] unpaid refl refl items_built refl tt
      (omega arith) refl

abbrev refusing : Env
refusing = record env {
  stripe = record stripe { create_checkout_session = λ args key. raised stripe_error };
}

create_package_checkout-stripe_error_example :
    create_package_checkout refusing trip (some payer) (text "usd") [] [] unpaid
    ≡ (ok (refused stripe_failed), record unpaid { db = record unpaid.db { next_pk = 31 } })
unfolding can_be_paid_by payout_account_id account_is_active package_is_expired first
    latest_incomplete latest lock_for_payment contains build_line_items fallback_line_item
    transfer_to
create_package_checkout-stripe_error_example =
    create_package_checkout-stripe_error refusing trip trip (some payer) (text "usd") [] []
      lunch_items lunch_line [] (some (pos 87, text "acct")) unpaid refl refl refl items_built refl
      fee_known refl refl

build_line_items-AddsUp_example :
    AllOk (AddsUp (text "usd")) (build_line_items shop trip (text "usd") unpaid.db)
build_line_items-AddsUp_example = build_line_items-AddsUp shop trip (text "usd") unpaid.db

-- The same lunch in euros, while no rates are known.
abbrev euro_lunch : World
euro_lunch = record unpaid {
  db = record unpaid.db { records = record lunch { currency = text "eur" } ∷ [] };
}

abbrev dark : Env
dark = record shop { rates = [] }

abbrev euro_line : LineItem
euro_line = record lunch_line { currency = text "eur" }

abbrev euro_items : CheckoutItems
euro_items = record lunch_items { line_items = euro_line ∷ [] }

euro_items_built : build_line_items dark trip (text "eur") euro_lunch.db ≡ ok euro_items
unfolding build_line_items collect_lines active_records line_item_for line_item_of_balance line_of
    append_line is_nonpositive add lower get_currency_decimals is_in to_stripe_amount ceiling digits
    divide half_even half_up is_zero quantize_half_up apply_rates find_rate multiply fix round_off
    to_int convert_strict text_eq upper first filter contains
euro_items_built = refl

create_package_checkout-fee_unavailable_example :
    create_package_checkout dark trip (some payer) (text "eur") [] [] euro_lunch ≡ (
      raised rate_unavailable,
      record euro_lunch {
        db =
            insert_payment
              (pending_payment dark trip (some payer) (text "eur") euro_items 30)
              euro_lunch.db;
      },
    )
unfolding can_be_paid_by payout_account_id account_is_active package_is_expired first
    latest_incomplete latest lock_for_payment compute converted_units convert_strict find_rate upper
    text_eq is_zero
create_package_checkout-fee_unavailable_example =
    create_package_checkout-fee_unavailable dark trip trip (some payer) (text "eur") [] []
      euro_items euro_line [] (text "acct") euro_lunch refl refl refl euro_items_built refl refl
      refl

create_reimbursement_package-is_visible_to_example : OpensFor env payer (lunch ∷ []) (trip ∷ []) (
    create_reimbursement_package env none owner
      (text "Payer@x.org")
      (10 ∷ [])
      (text "Trip")
      7
      unpaid)
unfolding user_by_email own_active_records first filter contains lower text_eq
create_reimbursement_package-is_visible_to_example =
    create_reimbursement_package-is_visible_to env none owner payer (text "Payer@x.org")
      (text "Trip") (10 ∷ []) 7 lunch [] unpaid refl (λ e. cc) refl (omega arith) (refl, tt)
