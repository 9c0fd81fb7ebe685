-- ===== src/Plaid/Services.antt =====
-- Webhooks of a bank item and the dispatch of its sync (plaid_integration/services.py).
pub mod Cooldown
use papertrail.Base.{
  ℕ, ◌+◌, Bool, true, false, not, ◌&&◌, ◌||◌, Option, none, some, List, [], ◌∷◌, ◌==◌, ltb,
  if◌then◌else◌, Text, text, text_eq, ok, pure, ◌>>=◌, ◌>>◌, exists, update, for_each,
}
use papertrail.Database.{Db, World, M, atomic, modify_db, gets_db}
use papertrail.Records.Model.{Record}
use papertrail.Plaid.Model.{PlaidItem, Payload}

-- The time, and `PLAID_SYNC_COOLDOWN_SECONDS` of the settings.
pub record Clock : Type 0 where
  pub now : ℕ
  pub cooldown : ℕ

-- `last_synced_at__isnull=True` or `last_synced_at__lt=now - cooldown`.
unfoldable pub cooled_down : Clock → Option ℕ → Bool
cooled_down clock none = true
cooled_down clock (some t) = ltb (t + clock.cooldown) clock.now

-- The item's row, if its cooldown is over.
unfoldable pub is_due : Clock → ℕ → PlaidItem → Bool
is_due clock pk item = item.pk == pk && cooled_down clock item.last_synced_at

abbrev pub save_items : (PlaidItem → Bool) → (PlaidItem → PlaidItem) → Db → Db
save_items q f d = record d { plaid_items = update q f d.plaid_items }

-- `sync_and_convert_for_item_task.send(...)`.
abbrev pub send : ℕ → M (Unit {0})
send pk w = (ok tt, record w { sent = pk ∷ w.sent })

-- `dispatch_sync`. The update and the count of its rows are one statement.
unfoldable pub dispatch_sync : Clock → PlaidItem → M Bool
dispatch_sync clock item = do
  due ← gets_db (λ d. exists (is_due clock item.pk) d.plaid_items)
  modify_db
      (save_items (is_due clock item.pk) λ row. record row { last_synced_at = some clock.now })
  if not due then pure false else do send item.pk; pure true

or_default : Option Text → Text → Text
or_default none t = t
or_default (some s) t = s

unfoldable pub save_error : Clock → PlaidItem → Text → Text → M (Unit {0})
save_error clock item code message = modify_db (
    save_items (λ row. row.pk == item.pk)
      λ row. record row {
        last_error_code = code;
        last_error_message = message;
        last_error_at = some clock.now;
      })

-- The bank record of one of the transactions.
unfoldable pub is_transaction_of : List Text → Record → Bool
is_transaction_of ids r = elim (r.plaid_transaction_id) [
  | none ↦ false
  | some id ↦ exists (text_eq id) ids
]

-- `update(is_active=False, last_edited=...)`.
abbrev pub archive : ℕ → Record → Record
archive now row = record row { is_active = false; last_edited = now }

unfoldable pub archive_transactions : ℕ → List Text → Db → Db
archive_transactions now ids d = record d {
  records = update (is_transaction_of ids) (archive now) d.records;
}

unfoldable pub is_any_of : List Text → Text → Bool
is_any_of codes code = exists (text_eq code) codes

-- `route_webhook`.
unfoldable pub route_webhook : Clock → Text → PlaidItem → Payload → M (Unit {0})
unfolding or_default
route_webhook clock code item payload =
    if is_any_of (text "SYNC_UPDATES_AVAILABLE" ∷ text "HISTORICAL_UPDATE" ∷ []) code
    then (dispatch_sync clock item >>= λ done. pure tt)
    else if is_any_of
        (text "ITEM_LOGIN_REQUIRED" ∷ text "ITEM_REQUIRES_UPDATE" ∷ text "PENDING_EXPIRATION" ∷ [])
        code
    then save_error clock item code (or_default payload.error_message (text "User action required"))
    else if text_eq code (text "ERROR")
    then save_error clock item (or_default payload.error_code code)
        (or_default payload.error_message (text "Unknown error"))
    else if text_eq code (text "TRANSACTIONS_REMOVED")
    then atomic (modify_db (archive_transactions clock.now payload.removed_transactions))
    else pure tt

dispatch_one : Clock → PlaidItem → M (Unit {0})
dispatch_one clock item = dispatch_sync clock item >>= λ done. pure tt

-- `periodic_plaid_sync_task` of plaid_integration/tasks.py.
unfoldable pub periodic_plaid_sync_task : Clock → M (Unit {0})
unfolding dispatch_one
periodic_plaid_sync_task clock = do
  items ← gets_db (λ d. d.plaid_items)
  for_each items (dispatch_one clock)
