-- ===== src/Reimbursements/Reconciliation.antt =====
-- reimbursements/reconciliation.py: the daily comparison of payments and packages with Stripe.
pub mod Drifts
pub mod Retry
use Prim.Native.String.{String}
use papertrail.Base.{
  ℕ, ◌+◌, Bool, true, false, not, ◌&&◌, ◌||◌, Option, none, some, List, [], ◌∷◌, ◌++◌, ◌==◌, leb,
  map, if◌then◌else◌, Text, text, text_eq, is_blank, lower, ℤ, pos, eqb_ℤ, Result, ok, raised,
  invalid_request, pure, lift, ◌>>=◌, ◌>>◌, filter, first, exists, for_each,
}
use papertrail.Database.{Db, Env, M, gets_db, create_audit_log}
use papertrail.Money.Currencies.{to_stripe_amount}
use papertrail.Records.Model.{AuditAction, update_record, AuditLog, Json, str, num, Details}
use papertrail.Reimbursements.Model.{
  Status, queued, opened, paid, is_paid, Package, Payment, PaymentIntent, is_deleted,
}
use papertrail.Reimbursements.Lookup.{package_of, uuid_of}

abbrev drift_event : Text
drift_event = text "reconciliation_drift"

-- 24 hours.
abbrev pub dedup_window : ℕ
dedup_window = 86400

pub record Drift : Type 0 where
  pub kind : Text
  pub package_uuid : Text
  pub detail : Details

-- `Drift.as_audit_details`.
unfoldable pub as_audit_details : Drift → Details
as_audit_details drift =
    ("event", str drift_event)
    ∷ ("drift_kind", str drift.kind)
    ∷ ("package_uuid", str drift.package_uuid)
    ∷ drift.detail

unfoldable pub expected_cents : Payment → ℤ
expected_cents payment = elim (payment.expected_amount_cents) [
  | some cents ↦ pos cents
  | none ↦ to_stripe_amount payment.amount_paid payment.payer_currency
]

-- `intent.get("amount_received") or intent.get("amount") or 0`.
unfoldable pub settled_amount : PaymentIntent → ℤ
settled_amount intent =
    if eqb_ℤ intent.amount_received (pos 0) then intent.amount else intent.amount_received

unfoldable pub wrong_currency : Payment → PaymentIntent → Bool
wrong_currency payment intent =
    not (is_blank intent.currency)
    && (not (is_blank payment.payer_currency)
        && not (text_eq (lower intent.currency) (lower payment.payer_currency)))

abbrev when : Bool → Drift → List Drift
when b drift = if b then drift ∷ [] else []

-- The drifts of one payment, from the intent that Stripe returned.
unfoldable pub intent_drifts : Text → Payment → PaymentIntent → List Drift
intent_drifts uuid payment intent =
    when (not (text_eq intent.intent_status (text "succeeded"))) (record {
      kind = text "payment_intent_not_succeeded";
      package_uuid = uuid;
      detail = ("payment_intent", str intent.id) ∷ ("stripe_status", str intent.intent_status) ∷ [];
    })
    ++ (when (not (eqb_ℤ (settled_amount intent) (expected_cents payment))) (record {
      kind = text "settled_amount_mismatch";
      package_uuid = uuid;
      detail =
          ("payment_intent", str intent.id)
          ∷ ("stripe_amount_cents", num (settled_amount intent))
          ∷ ("expected_cents", num (expected_cents payment))
          ∷ [];
    })
        ++ when (wrong_currency payment intent) (record {
          kind = text "settled_currency_mismatch";
          package_uuid = uuid;
          detail =
              ("payment_intent", str intent.id)
              ∷ ("stripe_currency", str (lower intent.currency))
              ∷ ("expected_currency", str payment.payer_currency)
              ∷ [];
        }))

-- An intent that Stripe does not know is a drift; any other error ends the run.
unfoldable pub payment_drifts : Text → Payment → Result PaymentIntent → Result (List Drift)
payment_drifts uuid payment (ok intent) = ok (intent_drifts uuid payment intent)
payment_drifts uuid payment (raised invalid_request) = ok (
    record {
      kind = text "payment_intent_missing";
      package_uuid = uuid;
      detail =
          ("payment_intent", str payment.stripe_payment_intent_id)
          ∷ ("expected_cents", num (expected_cents payment))
          ∷ [];
    }
    ∷ [])
payment_drifts uuid payment (raised e) = raised e

abbrev pub is_settled : Payment → Bool
is_settled payment = payment.is_completed && not (is_blank payment.stripe_payment_intent_id)

abbrev pub join_drifts : Result (List Drift) → Result (List Drift) → Result (List Drift)
join_drifts (ok ds) (ok es) = ok (ds ++ es)
join_drifts (ok ds) (raised e) = raised e
join_drifts (raised e) r = raised e

unfoldable pub drifts_of : Env → Db → List Payment → Result (List Drift)
drifts_of env d [] = ok []
drifts_of env d (payment ∷ payments) =
    join_drifts
      (payment_drifts (uuid_of d payment) payment
        (env.stripe.retrieve_payment_intent payment.stripe_payment_intent_id))
      (drifts_of env d payments)

-- `_check_completed_payments`.
unfoldable pub check_completed_payments : Env → Db → Result (List Drift)
unfolding drifts_of
check_completed_payments env d = drifts_of env d (filter is_settled d.payments)

abbrev pub is_unbacked : Db → Package → Bool
is_unbacked d p =
    (is_paid p.status && not (is_deleted p))
    && not (exists (λ x. x.package_pk == p.pk && x.is_completed) d.payments)

-- `_check_paid_packages_have_completed_payment`.
unfoldable pub check_paid_packages : Db → List Drift
check_paid_packages d =
    map
      (λ p. record {
        kind = text "paid_package_without_completed_payment";
        package_uuid = p.uuid;
        detail = [];
      })
      (filter (is_unbacked d) d.packages)

status_text : Status → Text
status_text queued = text "queued"
status_text opened = text "open"
status_text paid = text "paid"

abbrev status_of : Option Package → Text
status_of none = []
status_of (some p) = status_text p.status

abbrev pub in_paid : Option Package → Bool
in_paid none = false
in_paid (some p) = is_paid p.status

abbrev pub is_unsettled : Db → Payment → Bool
is_unsettled d payment = payment.is_completed && not (in_paid (package_of d payment))

-- `_check_completed_payments_have_paid_package`.
unfoldable pub check_unpaid_packages : Db → List Drift
unfolding status_text
check_unpaid_packages d =
    map
      (λ payment. record {
        kind = text "completed_payment_on_unpaid_package";
        package_uuid = uuid_of d payment;
        detail =
            ("stripe_session_id", str payment.stripe_checkout_session_id)
            ∷ ("package_status", str (status_of (package_of d payment)))
            ∷ [];
      })
      (filter (is_unsettled d) d.payments)

abbrev is_str : Text → Json → Bool
is_str s (str t) = text_eq s t
is_str s _ = false

-- `details__<key>=value`.
unfoldable pub has_detail : String → Text → Details → Bool
has_detail key value details =
    exists (λ entry. text_eq (text entry.0) (text key) && is_str value entry.1) details

abbrev is_update : AuditAction → Bool
is_update update_record = true
is_update _ = false

-- The entries of the last day that flag the drift.
unfoldable pub flags : Env → Drift → AuditLog → Bool
flags env drift entry =
    (is_update entry.action && leb env.now (entry.created_at + dedup_window))
    && (has_detail "event" drift_event entry.details
        && (has_detail "drift_kind" drift.kind entry.details
            && has_detail "package_uuid" drift.package_uuid entry.details))

unfoldable pub creator_pk : Option Package → Option ℕ
creator_pk none = none
creator_pk (some p) = some p.creator.pk

-- `_flag`.
unfoldable pub flag : Env → Drift → M (Unit {0})
unfolding creator_pk
flag env drift = do
  flagged ← gets_db (λ d. exists (flags env drift) d.audit)
  if flagged then pure tt else do
    found ← gets_db (λ d. first (λ p. text_eq p.uuid drift.package_uuid) d.packages)
    create_audit_log env (creator_pk found) update_record none (as_audit_details drift)

-- The drifts of all three checks.
unfoldable pub all_drifts : Env → Db → Result (List Drift)
all_drifts env d =
    join_drifts (check_completed_payments env d)
      (ok (check_paid_packages d ++ check_unpaid_packages d))

-- `run_daily_reconciliation`.
unfoldable pub run_daily_reconciliation : Env → M (List Drift)
run_daily_reconciliation env = do
  found ← gets_db (all_drifts env)
  drifts ← lift found
  for_each drifts (flag env)
  pure drifts
