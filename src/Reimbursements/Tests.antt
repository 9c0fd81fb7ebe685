-- ===== src/Reimbursements/Tests.antt =====
-- A database with one open package and its payment, for the witnesses: what Stripe would report,
-- and what a payer would do.
mod Events
mod Packages
mod Codes
mod Drifts
mod Checkout
use papertrail.Base.{
  ℕ, ◌∷◌, [], List, Bool, true, false, Option, none, some, Text, text, ok, raised, Result,
  stripe_error, invalid_request, pos, ◌==◌,
}
use papertrail.Money.PlatformFee.{default_settings}
use papertrail.Money.Decimal.{fraction}
use papertrail.Records.Model.{User, Record, RecordShare, expense_receipt, view, reimbursement}
use papertrail.Reimbursements.Model.{
  Status, opened, paid, StripeAccount, Package, Payment, Session, PaymentIntent, Charge,
}
use papertrail.Database.{Db, World, Stripe, Env}

abbrev pub owner : User
owner = record { pk = 1; email = text "owner@x.org" }

abbrev pub payer : User
payer = record { pk = 2; email = text "payer@x.org" }

abbrev pub lunch : Record
lunch = record {
  pk = 10;
  user = owner;
  date_added = 5;
  last_edited = 5;
  is_active = true;
  reimbursed = false;
  title = text "Lunch";
  merchant = text "Cafe";
  balance = some (fraction 1000 2);
  currency = text "usd";
  products = [];
  transaction_date = none;
  expiry_date = none;
  notes = [];
  payment_method = [];
  nickname = [];
  record_type = expense_receipt;
  folder = none;
  expiry_notification_sent = false;
  plaid_transaction_id = none;
  plaid_item = none;
}

abbrev pub granted : RecordShare
granted = record {
  pk = 20;
  record_pk = 10;
  user = payer;
  permission = view;
  purpose = reimbursement;
  include_documents = true;
  shared_by = some 1;
  created_at = 6;
  expires_at = none;
  revoked_at = none;
}

abbrev pub trip : Package
trip = record {
  pk = 1;
  uuid = text "u-1";
  creator = owner;
  recipient = some payer;
  recipient_email = [];
  title = text "Trip";
  currency = text "usd";
  records = 10 ∷ [];
  status = opened;
  created_at = 6;
  expires_at = none;
  paid_by = none;
  paid_at = none;
  deleted_at = none;
}

abbrev pub payment : Payment
payment = record {
  pk = 5;
  package_pk = 1;
  payer = some payer;
  stripe_checkout_session_id = text "cs";
  stripe_payment_intent_id = [];
  amount_paid = fraction 1000 2;
  expected_amount_cents = some 1000;
  payer_currency = text "usd";
  is_completed = false;
  created_at = 7;
}

abbrev pub account : StripeAccount
account = record {
  user = 1;
  stripe_account_id = text "acct";
  stripe_details_submitted = true;
  charges_enabled = true;
  payouts_enabled = true;
}

abbrev pub session : Session
session = record {
  id = text "cs";
  session_status = text "complete";
  url = [];
  payment_status = text "paid";
  currency = text "usd";
  amount_total = some (pos 1000);
  payment_intent = text "pi";
  package_uuid = text "u-1";
}

abbrev pub start : Db
start = record {
  users = owner ∷ payer ∷ [];
  records = lunch ∷ [];
  shares = granted ∷ [];
  audit = [];
  documents = [];
  merges = [];
  accounts = account ∷ [];
  packages = trip ∷ [];
  payments = payment ∷ [];
  processed = [];
  verifications = [];
  on_commit = [];
  plaid_items = [];
  folders = [];
  next_pk = 30;
}

abbrev pub world : World
world = record { db = start; refunds = []; sent = [] }

-- Stripe knows the session and makes every refund.
abbrev pub stripe : Stripe
stripe = record {
  retrieve_checkout_session = λ id. ok session;
  retrieve_payment_intent = λ id. raised invalid_request;
  retrieve_charge = λ id. raised stripe_error;
  create_refund = λ intent reason. ok tt;
  create_checkout_session = λ args key. raised stripe_error;
}

abbrev pub env : Env
env = record {
  now = 100;
  today = 1;
  show_date = λ t. text "2026-01-01";
  locked = λ pk. false;
  rates = (text "USD", fraction 1 0) ∷ [];
  fees = default_settings;
  fresh_uuid = text "new";
  checkout_key = λ pk. [];
  stripe = stripe;
}

-- The same, later, with every package row locked by another request.
abbrev pub busy : Env
busy = record env { now = 101; locked = λ pk. true }

-- The package and the payment once they are settled.
abbrev pub paid_trip : Package
paid_trip = record trip { status = paid; paid_by = some payer; paid_at = some 90 }

abbrev pub completed : Payment
completed = record payment { is_completed = true; stripe_payment_intent_id = text "pi" }

abbrev pub paid_world : World
paid_world = record world {
  db = record start { packages = paid_trip ∷ []; payments = completed ∷ [] };
}
