-- ===== src/Plaid/Syncing.antt =====
-- The sync of a bank item's transactions into records (plaid_integration/tasks.py).
pub mod Termination
pub mod Outcomes
pub mod Updates
pub mod Stored
use papertrail.Base.{
  ℕ, zero, suc, ◌+◌, Bool, true, false, not, ◌&&◌, ◌||◌, Option, none, some, List, [], ◌∷◌, ◌++◌,
  map, ◌==◌, if◌then◌else◌, length, Text, text, text_eq, is_blank, or_text, lower, Result, ok,
  raised, Error, value_error, integrity_error, pure, raise, lift, ◌>>=◌, ◌>>◌, first, filter,
  exists, update, for_each,
}
use papertrail.Database.{Db, World, Env, M, atomic, modify_db, gets_db}
use papertrail.Money.Decimal.{Decimal}
use papertrail.Records.Model.{User, Record, RecordType, financial_document}
use papertrail.Plaid.Model.{Account, PlaidItem, Folder, UserSettings, Txn, Page}
use papertrail.Plaid.Folders.{FolderCache, choose_folder}
use papertrail.Plaid.Services.{is_transaction_of, archive, save_items}

-- What a run finds: the time and the day, the settings of a user, and Plaid's Transactions Sync,
-- given an access token and a cursor.
pub record Bank : Type 0 where
  pub now : ℕ
  pub today : ℕ
  pub settings_of : User → UserSettings
  pub transactions_sync : Text → Text → Result Page

-- `_format_account_name`; the dots are two bullets.
unfoldable pub format_account_name : Account → Text
format_account_name a =
    if is_blank a.name || is_blank a.mask
    then a.name
    else a.name ++ (text " (" ++ (8226 ∷ 8226 ∷ (a.mask ++ text ")")))

-- `_get_payment_method`.
unfoldable pub get_payment_method : PlaidItem → Text → Text
get_payment_method item account_id =
    if is_blank account_id
    then []
    else elim (first (λ a. text_eq a.id account_id) item.accounts_data) [
      | none ↦ []
      | some a ↦ format_account_name a
    ]

-- `categories[0] if categories else ""`.
unfoldable pub primary_category : Txn → Text
primary_category txn = elim (txn.category) [ [] ↦ [] | c ∷ cs ↦ c ]

-- `authorized_date`, or else `date`.
unfoldable pub transaction_day : Txn → ℕ
transaction_day txn = elim (txn.authorized_date) [ none ↦ txn.date | some day ↦ day ]

folder_key : Option Folder → Option ℕ
folder_key none = none
folder_key (some f) = some f.pk

-- The instance that the defaults make: a record without a primary key.
pub record Draft : Type 0 where
  pub transaction_id : Text
  pub row : ℕ → Record

unfoldable pub draft_of : Bank → PlaidItem → Txn → Option Folder → Draft
unfolding folder_key
draft_of bank item txn folder = record {
  transaction_id = txn.transaction_id;
  row = λ pk. record {
    pk = pk;
    user = item.user;
    date_added = bank.today;
    last_edited = bank.now;
    is_active = true;
    reimbursed = false;
    title = txn.name;
    merchant = or_text txn.merchant_name txn.name;
    balance = some (record txn.amount { negative = false });
    currency = lower (
        or_text txn.iso_currency_code
          (or_text txn.unofficial_currency_code (bank.settings_of item.user).default_currency));
    products = [];
    transaction_date = some (transaction_day txn);
    expiry_date = none;
    notes = primary_category txn;
    payment_method = get_payment_method item txn.account_id;
    nickname = [];
    record_type = financial_document;
    folder = folder_key folder;
    expiry_notification_sent = false;
    plaid_transaction_id = some txn.transaction_id;
    plaid_item = some item.pk;
  };
}

-- `_txn_to_record_defaults`, with the folder cache of the run.
unfoldable pub draft_txn : Bank → PlaidItem → Txn → FolderCache → M (Draft × FolderCache)
draft_txn bank item txn cache =
    if (bank.settings_of item.user).auto_create_and_organize_folders
    then (choose_folder item.user (primary_category txn) cache >>= λ found.
        pure (draft_of bank item txn found.0, found.1))
    else pure (draft_of bank item txn none, cache)

-- The instances to create and to update, in the order of the batch.
pub record Batch : Type 0 where
  pub to_create : List Draft
  pub to_update : List Draft

abbrev pub add_draft : Bool → Draft → Batch → Batch
add_draft true draft b = record b { to_update = draft ∷ b.to_update }
add_draft false draft b = record b { to_create = draft ∷ b.to_create }

-- `_process_added_modified_transactions`.
unfoldable pub process_batch :
    Bank → PlaidItem → List Text → List Txn → FolderCache → M (Batch × FolderCache)
process_batch bank item existing [] cache = pure (record { to_create = []; to_update = [] }, cache)
process_batch bank item existing (txn ∷ txns) cache = do
  drafted ← draft_txn bank item txn cache
  rest ← process_batch bank item existing txns drafted.1
  pure (add_draft (exists (text_eq txn.transaction_id) existing) drafted.0 rest.0, rest.1)

unfoldable pub has_transaction : Text → Record → Bool
has_transaction id r = elim (r.plaid_transaction_id) [ none ↦ false | some t ↦ text_eq t id ]

abbrev pub insert_record : Draft → Db → Db
insert_record draft d = record d {
  records = draft.row d.next_pk ∷ d.records;
  next_pk = d.next_pk + 1;
}

-- One row of `bulk_create`; `plaid_transaction_id` is unique.
unfoldable pub create_one : Draft → M (Unit {0})
create_one draft = do
  taken ← gets_db (λ d. exists (has_transaction draft.transaction_id) d.records)
  if taken then raise integrity_error else modify_db (insert_record draft)

-- `bulk_update` refuses instances without a primary key, and these have none.
unfoldable pub bulk_update : List Draft → M (Unit {0})
bulk_update [] = pure tt
bulk_update (draft ∷ drafts) = raise value_error

-- `_bulk_create_update_records`; the caller's transaction undoes a part of it.
unfoldable pub bulk_create_update : Batch → M (Unit {0})
unfolding create_one
bulk_create_update b = do for_each b.to_create create_one; bulk_update b.to_update

-- `stats`.
pub record Stats : Type 0 where
  pub added_count : ℕ
  pub modified_count : ℕ
  pub removed_count : ℕ

abbrev pub no_stats : Stats
no_stats = record { added_count = 0; modified_count = 0; removed_count = 0 }

-- `_process_removed_transactions`.
unfoldable pub process_removed : ℕ → List Text → Stats → M Stats
process_removed now [] stats = pure stats
process_removed now (id ∷ ids) stats = do
  archived ← gets_db (λ d. length (filter (has_transaction id) d.records))
  modify_db (λ d. record d { records = update (has_transaction id) (archive now) d.records })
  process_removed now ids (record stats { removed_count = stats.removed_count + archived })

-- The transaction ids of the batch that have a record.
unfoldable pub existing_ids : List Txn → Db → List Text
existing_ids [] d = []
existing_ids (txn ∷ txns) d =
    let rest = existing_ids txns d in
    if exists (has_transaction txn.transaction_id) d.records
    then txn.transaction_id ∷ rest
    else rest

unfoldable pub store_batch : Bank → PlaidItem → List Txn → FolderCache → M FolderCache
store_batch bank item [] cache = pure cache
store_batch bank item (txn ∷ txns) cache = do
  existing ← gets_db (existing_ids (txn ∷ txns))
  processed ← process_batch bank item existing (txn ∷ txns) cache
  bulk_create_update processed.0
  pure processed.1

-- The cursor after a page.
unfoldable pub cursor_after : Text → Page → Text
cursor_after cursor page = elim (page.next_cursor) [ none ↦ cursor | some c ↦ c ]

abbrev pub counted : Page → Stats → Stats
counted page stats = record stats {
  added_count = stats.added_count + length page.added;
  modified_count = stats.modified_count + length page.modified;
}

-- The transaction that stores a page and the cursor after it.
unfoldable pub store_page :
    Bank → PlaidItem → Text → Page → Stats → FolderCache → M (Stats × FolderCache)
store_page bank item cursor page stats cache = atomic do
  removed ← process_removed bank.now page.removed stats
  cache' ← store_batch bank item (page.added ++ page.modified) cache
  modify_db (
      save_items (λ row. row.pk == item.pk)
        λ row. record row { next_cursor = cursor_after cursor page })
  pure (counted page removed, cache')

-- The `while has_more` loop, for at most so many pages; `none` is a run that was cut off.
unfoldable pub sync_pages : ℕ → Bank → PlaidItem → Text → Stats → FolderCache → M (Option Stats)
sync_pages zero bank item cursor stats cache = pure none
sync_pages (suc fuel) bank item cursor stats cache = do
  page ← lift (bank.transactions_sync item.access_token cursor)
  stored ← store_page bank item cursor page stats cache
  elim (page.has_more) [
    | true ↦ sync_pages fuel bank item (cursor_after cursor page) stored.0 stored.1
    | false ↦ pure (some stored.0)
  ]

-- What `sync_and_convert_for_item_task` returns, before documents are matched.
pub data SyncOutcome : Type 0 where
  not_found cut_off : SyncOutcome
  synced : Stats → SyncOutcome

unfoldable pub outcome_of : Option Stats → SyncOutcome
outcome_of none = cut_off
outcome_of (some stats) = synced stats

unfoldable pub sync_item : ℕ → Bank → Option PlaidItem → M SyncOutcome
sync_item fuel bank none = pure not_found
sync_item fuel bank (some item) = do
  stats ← sync_pages fuel bank item item.next_cursor no_stats []
  pure (outcome_of stats)

-- `sync_and_convert_for_item_task`, up to `_match_records_to_documents`.
unfoldable pub sync_and_convert_for_item_task : ℕ → Bank → ℕ → M SyncOutcome
unfolding sync_item
sync_and_convert_for_item_task fuel bank pk = do
  item ← gets_db (λ d. first (λ row. row.pk == pk) d.plaid_items)
  sync_item fuel bank item
