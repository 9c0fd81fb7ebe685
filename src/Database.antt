-- ===== src/Database.antt =====
-- The database that the apps share, the outside world that a request sees, and transactions.
use papertrail.Base.{ℕ, Bool, Option, List, ◌∷◌, Text, Result, ok, raised, Action}
use papertrail.Money.ExchangeRates.{Rates}
use papertrail.Money.PlatformFee.{FeeSettings}
use papertrail.Records.Model.{
  User, Record, RecordShare, AuditLog, Document, MergeLog, AuditAction, Details,
}
use papertrail.Plaid.Model.{PlaidItem, Folder}
use papertrail.Reimbursements.Model.{
  StripeAccount, Package, Payment, Verification, CheckoutArgs, Session, PaymentIntent, Charge,
}

-- A task that is sent once the transaction commits: its name's arguments, package and payer.
pub record Notice : Type 0 where
  pub package_pk : ℕ
  pub payer : Option ℕ

pub record Db : Type 0 where
  pub users : List User
  pub records : List Record
  pub shares : List RecordShare
  pub audit : List AuditLog
  pub documents : List Document
  pub merges : List MergeLog
  pub accounts : List StripeAccount
  pub packages : List Package
  pub payments : List Payment
  pub processed : List Text
  pub verifications : List Verification
  pub on_commit : List Notice
  pub plaid_items : List PlaidItem
  pub folders : List Folder
  pub next_pk : ℕ

-- A request for a refund that Stripe has granted. It and the messages to the task queue are outside
-- the database: no rollback undoes them.
pub record Refund : Type 0 where
  pub payment_intent : Text
  pub reason : Text

pub record World : Type 0 where
  pub db : Db
  pub refunds : List Refund
  pub sent : List ℕ

-- A request to Stripe returns an object, or raises `InvalidRequestError` or another `StripeError`.
pub record Stripe : Type 0 where
  pub retrieve_checkout_session : Text → Result Session
  pub retrieve_payment_intent : Text → Result PaymentIntent
  pub retrieve_charge : Text → Result Charge
  pub create_refund : Text → Text → Result (Unit {0})
  pub create_checkout_session : CheckoutArgs → Text → Result Session

-- What one request finds: the time and the day, the package rows that another transaction has
-- locked, the exchange rates, the settings of the fee, a new UUID, the idempotency key of a checkout,
-- and Stripe's replies. `show_date` is `strftime("%Y-%m-%d")`.
pub record Env : Type 0 where
  pub now : ℕ
  pub today : ℕ
  pub show_date : ℕ → Text
  pub locked : ℕ → Bool
  pub rates : Rates
  pub fees : FeeSettings
  pub fresh_uuid : Text
  pub checkout_key : ℕ → Text
  pub stripe : Stripe

abbrev pub M : Type 0 → Type 0
M = Action World

-- `with transaction.atomic():` an exception undoes what the block wrote to the database.
abbrev pub atomic : {A : Type 0} → M A → M A
atomic m w =
    let (r, w') = m w in
    elim r [ ok a ↦ (ok a, w') | raised e ↦ (raised e, record w' { db = w.db }) ]

abbrev pub modify_db : (Db → Db) → M (Unit {0})
modify_db f w = (ok tt, record w { db = f w.db })

abbrev pub gets_db : {A : Type 0} → (Db → A) → M A
gets_db f w = (ok (f w.db), w)

-- `AuditLog.objects.create(...)`.
abbrev pub audit_entry : Env → Option ℕ → AuditAction → Option ℕ → Details → AuditLog
audit_entry env user action record_pk details = record {
  user = user;
  action = action;
  record_pk = record_pk;
  details = details;
  created_at = env.now;
}

unfoldable pub create_audit_log : Env → Option ℕ → AuditAction → Option ℕ → Details → M (Unit {0})
create_audit_log env user action record_pk details =
    modify_db λ d. record d { audit = audit_entry env user action record_pk details ∷ d.audit }
