-- ===== src/Plaid/Model.antt =====
-- The rows of the plaid_integration app (plaid_integration/models.py), the folders of
-- records/models.py, and what Plaid sends.
use papertrail.Base.{ℕ, Bool, Option, List, Text}
use papertrail.Money.Decimal.{Decimal}
use papertrail.Records.Model.{User}

-- An entry of `accounts_data`, as the link stored it.
pub record Account : Type 0 where
  pub id : Text
  pub name : Text
  pub mask : Text

pub record PlaidItem : Type 0 where
  pub pk : ℕ
  pub user : User
  pub item_id : Text
  pub access_token : Text
  pub next_cursor : Text
  pub last_synced_at : Option ℕ
  pub last_error_code : Text
  pub last_error_message : Text
  pub last_error_at : Option ℕ
  pub accounts_data : List Account

pub record Folder : Type 0 where
  pub pk : ℕ
  pub user : ℕ
  pub name : Text

-- The settings of a user that a sync reads.
pub record UserSettings : Type 0 where
  pub auto_create_and_organize_folders : Bool
  pub default_currency : Text

-- A transaction; texts that are missing or null are blank, and dates are days.
pub record Txn : Type 0 where
  pub transaction_id : Text
  pub name : Text
  pub merchant_name : Text
  pub amount : Decimal
  pub iso_currency_code : Text
  pub unofficial_currency_code : Text
  pub authorized_date : Option ℕ
  pub date : ℕ
  pub category : List Text
  pub account_id : Text

-- A page of Transactions Sync. `removed` holds transaction ids.
pub record Page : Type 0 where
  pub added : List Txn
  pub modified : List Txn
  pub removed : List Text
  pub next_cursor : Option Text
  pub has_more : Bool

-- The part of a webhook's payload that is read; a missing key is `none`.
pub record Payload : Type 0 where
  pub error_code : Option Text
  pub error_message : Option Text
  pub removed_transactions : List Text
