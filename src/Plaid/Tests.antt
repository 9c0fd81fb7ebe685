-- ===== src/Plaid/Tests.antt =====
-- A bank item, a page with a transaction that is known, and the runs that find them.
use papertrail.Base.{
  contains, ◌≡◌, refl, true, false, none, some, [], ◌∷◌, text, ok, is_ok, arith, exists, text_eq,
  for_each, update,
}
use papertrail.Database.{World}
use papertrail.Money.Decimal.{fraction}
use papertrail.Reimbursements.Tests.{owner, lunch, world}
use papertrail.Plaid.Model.{PlaidItem, Txn, Page}
use papertrail.Plaid.Services.{dispatch_sync, is_due, cooled_down}
use papertrail.Plaid.Services.Cooldown.{dispatch_sync-dispatch_sync}
use papertrail.Plaid.Syncing.{
  Bank, no_stats, existing_ids, has_transaction, sync_pages, store_page, process_removed,
  store_batch, process_batch, draft_txn, primary_category, bulk_create_update, draft_of,
  bulk_update,
}
use papertrail.Plaid.Folders.{choose_folder}
use papertrail.Plaid.Syncing.Termination.{ends_within, Finishes, sync_pages-Finishes}
use papertrail.Plaid.Syncing.Updates.{store_page_refuses}
use papertrail.Plaid.Syncing.Stored.{store_page-Recorded}

abbrev bank_item : PlaidItem
bank_item = record {
  pk = 3;
  user = owner;
  item_id = text "item";
  access_token = text "token";
  next_cursor = [];
  last_synced_at = some 1;
  last_error_code = [];
  last_error_message = [];
  last_error_at = none;
  accounts_data = [];
}

abbrev coffee : Txn
coffee = record {
  transaction_id = text "t1";
  name = text "Coffee";
  merchant_name = [];
  amount = fraction 350 2;
  iso_currency_code = text "USD";
  unofficial_currency_code = [];
  authorized_date = none;
  date = 9;
  category = [];
  account_id = [];
}

-- The transaction has been stored, and Plaid corrects it.
abbrev synced_world : World
synced_world = record world {
  db = record world.db {
    records = record lunch { plaid_transaction_id = some (text "t1") } ∷ [];
    plaid_items = bank_item ∷ [];
  };
}

abbrev correction : Page
correction = record {
  added = [];
  modified = coffee ∷ [];
  removed = [];
  next_cursor = some (text "c1");
  has_more = false;
}

-- A first transaction of the month.
abbrev rent : Txn
rent = record coffee { transaction_id = text "t2"; name = text "Rent" }

abbrev news : Page
news = record correction { added = rent ∷ []; modified = []; removed = text "t1" ∷ [] }

abbrev bank : Bank
bank = record {
  now = 50;
  today = 9;
  settings_of =
      λ u. record { auto_create_and_organize_folders = true; default_currency = text "usd" };
  transactions_sync = λ token cursor. ok correction;
}

dispatch_sync-dispatch_sync_example :
    let w' = (dispatch_sync (record { now = 100; cooldown = 60 }) bank_item synced_world).1 in
    dispatch_sync (record { now = 130; cooldown = 60 }) bank_item w' ≡ (ok false, w')
unfolding dispatch_sync exists is_due cooled_down contains
dispatch_sync-dispatch_sync_example =
    dispatch_sync-dispatch_sync (record { now = 100; cooldown = 60 })
      (record { now = 130; cooldown = 60 }) bank_item synced_world (refl, tt) (omega arith) refl

sync_pages-Finishes_example : Finishes (sync_pages 1 bank bank_item [] no_stats [] synced_world)
unfolding ends_within
sync_pages-Finishes_example = sync_pages-Finishes 1 bank bank_item [] no_stats [] synced_world refl

store_page_refuses_example :
    let (result, w') = store_page bank bank_item [] correction no_stats [] synced_world in
    (is_ok result ≡ false) × (w'.db ≡ synced_world.db)
unfolding existing_ids has_transaction exists text_eq
store_page_refuses_example =
    store_page_refuses bank bank_item [] (text "t1") [] correction no_stats [] synced_world refl

store_page-Recorded_example :
    let w' = (store_page bank bank_item [] news no_stats [] synced_world).1 in
    exists (has_transaction (text "t2")) w'.db.records ≡ true
unfolding store_page has_transaction exists text_eq process_removed store_batch process_batch
    draft_txn choose_folder primary_category bulk_create_update for_each existing_ids update
    draft_of bulk_update
store_page-Recorded_example =
    store_page-Recorded (text "t2") bank bank_item [] news no_stats [] synced_world refl
