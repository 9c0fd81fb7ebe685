-- ===== src/Records/Model.antt =====
-- The rows of the records app (records/models.py), and what a row says about itself. A foreign key
-- to a user is the user's row, joined; one to a record, a folder or a bank item is a primary key.
-- Times are seconds and dates are days, counted from an epoch.
use Prim.Native.String.{String}
use papertrail.Base.{ℕ, ◌+◌, Bool, true, false, Option, none, some, List, ltb, ℤ, Text}
use papertrail.Money.Decimal.{Decimal}

pub record User : Type 0 where
  pub pk : ℕ
  pub email : Text

pub data RecordType : Type 0 where
  expense_receipt voucher financial_document warranty_certificate : RecordType
  vendor_invoice customer_invoice loan_document credit_card_statement : RecordType
  bank_statement purchase_order payslip tax_document : RecordType
  service_contract lease_agreement insurance_policy other : RecordType

pub record Record : Type 0 where
  pub pk : ℕ
  pub user : User
  pub date_added : ℕ
  pub last_edited : ℕ
  pub is_active : Bool
  pub reimbursed : Bool
  pub title : Text
  pub merchant : Text
  pub balance : Option Decimal
  pub currency : Text
  pub products : Text
  pub transaction_date : Option ℕ
  pub expiry_date : Option ℕ
  pub notes : Text
  pub payment_method : Text
  pub nickname : Text
  pub record_type : RecordType
  pub folder : Option ℕ
  pub expiry_notification_sent : Bool
  pub plaid_transaction_id : Option Text
  pub plaid_item : Option ℕ

pub data Permission : Type 0 where
  edit view : Permission

-- The blank purpose, and the one choice.
pub data Purpose : Type 0 where
  unstated reimbursement : Purpose

abbrev pub is_reimbursement : Purpose → Bool
is_reimbursement reimbursement = true
is_reimbursement unstated = false

pub record RecordShare : Type 0 where
  pub pk : ℕ
  pub record_pk : ℕ
  pub user : User
  pub permission : Permission
  pub purpose : Purpose
  pub include_documents : Bool
  pub shared_by : Option ℕ
  pub created_at : ℕ
  pub expires_at : Option ℕ
  pub revoked_at : Option ℕ

-- `expires_at is None or expires_at > now`.
abbrev pub not_expired : Option ℕ → ℕ → Bool
not_expired none now = true
not_expired (some t) now = ltb now t

abbrev active_by : Option ℕ → Option ℕ → ℕ → Bool
active_by (some t) expires_at now = false
active_by none expires_at now = not_expired expires_at now

-- `RecordShare.is_active`.
unfoldable pub share_is_active : ℕ → RecordShare → Bool
share_is_active now share = active_by share.revoked_at share.expires_at now

pub data AuditAction : Type 0 where
  merge undo_merge detach_receipt replace_receipt create_record update_record : AuditAction
  soft_delete hard_delete archive unarchive share revoke_share : AuditAction

-- The values of the JSON object `details`; a decimal is stored as its text.
pub data Json : Type 0 where
  null : Json
  str : Text → Json
  num : ℤ → Json
  bool : Bool → Json
  decimal : Decimal → Json

abbrev pub Details : Type 0
Details = List (String × Json)

pub record AuditLog : Type 0 where
  pub user : Option ℕ
  pub action : AuditAction
  pub record_pk : Option ℕ
  pub details : Details
  pub created_at : ℕ

expires_before : Option ℕ → ℕ → Bool
expires_before none day = false
expires_before (some t) day = ltb t day

-- `Record.is_expired`, at the date `today`.
unfoldable pub is_expired : ℕ → Record → Bool
unfolding expires_before
is_expired today r = expires_before r.expiry_date today

-- `Record.is_expiring_soon`.
unfoldable pub is_expiring_soon : ℕ → ℕ → Record → Bool
unfolding expires_before
is_expiring_soon today days r = expires_before r.expiry_date (today + days + 1)

-- A row of `DocumentData` (documents/models.py), by its record.
pub record Document : Type 0 where
  pub pk : ℕ
  pub associated_record : Option ℕ

-- `_record_snapshot`.
pub record Snapshot : Type 0 where
  pub products : Text
  pub notes : Text
  pub record_type : RecordType
  pub folder : Option ℕ
  pub is_active : Bool
  pub plaid_transaction_id : Option Text
  pub title : Text
  pub merchant : Text
  pub balance : Option Decimal
  pub transaction_date : Option ℕ
  pub currency : Text
  pub payment_method : Text

-- `document_ids` is the entry of that name that a merge adds to the document's snapshot.
pub record MergeLog : Type 0 where
  pub pk : ℕ
  pub plaid_record : Option ℕ
  pub document_record : Option ℕ
  pub document : Option ℕ
  pub plaid_snapshot : Snapshot
  pub document_snapshot : Snapshot
  pub document_ids : List ℕ
  pub created_at : ℕ
  pub undone_at : Option ℕ
