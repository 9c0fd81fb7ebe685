-- ===== src/Billing/Entitlements.antt =====
-- What a user's plan allows (billing/entitlements.py).
pub mod Limits
use papertrail.Base.{
  ℕ, suc, ◌+◌, ◌*◌, Bool, true, false, not, ◌&&◌, ◌||◌, Option, none, some, List, [], ◌∷◌, ◌==◌,
  ltb, leb, if◌then◌else◌, Text, text, text_eq, first, update,
}
use papertrail.Billing.Storage.{Account, Store}
use papertrail.Billing.Plans.{
  ProductMetadata, verity_free, Subscriber, plan_for_user, storage_addons_for_user,
}

-- The features that the two sets hold.
pub data Feature : Type 0 where
  limited_scans supporting_file_upload expiry_reminders unlimited_scans : Feature
  bank_transaction_sync quick_reimbursement_request auto_txn_categorization : Feature
  record_sharing : Feature

-- `FREE_FEATURES`; `PAID_FEATURES` holds these and the others.
unfoldable pub is_free_feature : Feature → Bool
is_free_feature limited_scans = true
is_free_feature supporting_file_upload = true
is_free_feature expiry_reminders = true
is_free_feature _ = false

-- `get_plan(user) == "paid"`.
unfoldable pub is_paid_plan : Subscriber → Bool
is_paid_plan u = not (text_eq (plan_for_user u).stripe_id verity_free.stripe_id)

-- `has_feature`.
unfoldable pub has_feature : Subscriber → Feature → Bool
has_feature u feature = u.is_authenticated && (is_paid_plan u || is_free_feature feature)

-- `get_monthly_scan_limit`.
unfoldable pub get_monthly_scan_limit : Subscriber → Option ℕ
get_monthly_scan_limit u = (plan_for_user u).monthly_scan_limit

total_limit : List ProductMetadata → ℕ
total_limit [] = 0
total_limit (p ∷ ps) = p.storage_limit_half_gb + total_limit ps

-- `get_storage_limit`, in half gigabytes.
unfoldable pub get_storage_limit : Subscriber → ℕ
unfolding total_limit
get_storage_limit u =
    (plan_for_user u).storage_limit_half_gb + total_limit (storage_addons_for_user u)

-- Half of `1024**3`.
abbrev pub half_gb : ℕ
half_gb = 536870912

-- `get_storage_usage_bytes` of billing/storage.py.
unfoldable pub get_storage_usage_bytes : ℕ → Store → ℕ
get_storage_usage_bytes user_pk s = elim (first (λ a. a.pk == user_pk) s.accounts) [
  | none ↦ 0
  | some a ↦ a.storage_used_bytes
]

-- `is_storage_limit_exceeded`.
unfoldable pub is_storage_limit_exceeded : Subscriber → ℕ → Store → Bool
is_storage_limit_exceeded u user_pk s =
    leb (get_storage_limit u * half_gb) (get_storage_usage_bytes user_pk s)

-- `can_add_storage`.
unfoldable pub can_add_storage : Subscriber → ℕ → ℕ → Store → Bool
can_add_storage u user_pk additional_bytes s =
    leb (get_storage_usage_bytes user_pk s + additional_bytes) (get_storage_limit u * half_gb)

-- A row of `ScanUsage`; the period is a month.
pub record ScanUsage : Type 0 where
  pub user : ℕ
  pub period : ℕ
  pub count : ℕ

unfoldable pub is_usage_of : ℕ → ℕ → ScanUsage → Bool
is_usage_of user period row = row.user == user && row.period == period

-- `get_monthly_scan_count`.
unfoldable pub get_monthly_scan_count : ℕ → ℕ → List ScanUsage → ℕ
get_monthly_scan_count user period rows = elim (first (is_usage_of user period) rows) [
  | none ↦ 0
  | some row ↦ row.count
]

within : Option ℕ → ℕ → Bool
within none count = true
within (some limit) count = ltb count limit

-- `can_scan`.
unfoldable pub can_scan : Subscriber → ℕ → ℕ → Store → List ScanUsage → Bool
unfolding within
can_scan u user_pk period s rows =
    (u.is_authenticated && not (is_storage_limit_exceeded u user_pk s))
    && within (get_monthly_scan_limit u) (get_monthly_scan_count user_pk period rows)

-- `get_or_create` of the row, and the increment of its count. Between the two no other request
-- removes the row, so that the loop of the source runs once.
unfoldable pub get_or_create_usage : ℕ → ℕ → Option ScanUsage → List ScanUsage → List ScanUsage
get_or_create_usage user period (some row) rows = rows
get_or_create_usage user period none rows =
    record { user = user; period = period; count = 0 } ∷ rows

-- `record_scan`.
unfoldable pub record_scan : ℕ → ℕ → List ScanUsage → List ScanUsage
unfolding get_or_create_usage
record_scan user period rows =
    update (is_usage_of user period) (λ row. record row { count = row.count + 1 })
      (get_or_create_usage user period (first (is_usage_of user period) rows) rows)
