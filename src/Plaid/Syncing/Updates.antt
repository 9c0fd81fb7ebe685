-- ===== src/Plaid/Syncing/Updates.antt =====
-- Transactions that already have a record (`_bulk_create_update_records` of
-- plaid_integration/tasks.py).
use papertrail.Base.{
  ◌≡◌, refl, ◌∙◌, ℕ, Bool, true, false, ◌||◌, List, [], ◌∷◌, ◌++◌, ◌==◌, ◌+◌, arith, Text, text_eq,
  text_eq_refl, is_ok, inl, inr, Bool-cases, AllOk-any, AllOk-weaken, exists, exists-update, update,
  filter, length, for_each, pure, ◌>>=◌, ◌>>◌, Keeps, Keeps-bind, Keeps-pure,
}
use papertrail.Database.{Db, World, M, modify_db, gets_db}
use papertrail.Plaid.Model.{PlaidItem, Txn, Page}
use papertrail.Plaid.Folders.{FolderCache}
use papertrail.Plaid.Services.{archive, save_items}
use papertrail.Plaid.Syncing.Outcomes.{
  Returns, Raises, Returns-any, Returns-bind, raises_after, Raises-bind, always-Returns,
  raised_left, Raises-left, atomic_failed,
}
use papertrail.Plaid.Syncing.{
  Bank, Draft, Batch, Stats, add_draft, draft_txn, process_batch, has_transaction, create_one,
  bulk_update, bulk_create_update, process_removed, existing_ids, store_batch, store_page,
  cursor_after, counted,
}

is_known : List Text → Txn → Bool
is_known existing txn = exists (text_eq txn.transaction_id) existing

has_update : Batch × FolderCache → Bool
has_update (b, cache) = elim (b.to_update) [ [] ↦ false | d ∷ ds ↦ true ]

add_draft-has_update :
    (known : Bool) (draft : Draft) (b : Batch) (cache : FolderCache)
    → (known || has_update (b, cache)) ≡ true
    → has_update (add_draft known draft b, cache) ≡ true
unfolding has_update
add_draft-has_update true draft b cache h = refl
add_draft-has_update false draft b cache h = h

module _ (bank : Bank) (item : PlaidItem) (existing : List Text) where
  -- The rest of the batch, once a transaction has been drafted.
  batch_after : Txn → List Txn → Draft × FolderCache → M (Batch × FolderCache)
  batch_after txn txns drafted = do
    rest ← process_batch bank item existing txns drafted.1
    pure (add_draft (exists (text_eq txn.transaction_id) existing) drafted.0 rest.0, rest.1)

  HasUpdate : Batch × FolderCache → Type 0
  HasUpdate b = has_update b ≡ true

  process_batch-HasUpdate :
      (txns : List Txn) (cache : FolderCache)
      → exists (is_known existing) txns ≡ true
      → Returns HasUpdate (process_batch bank item existing txns cache)
  unfolding process_batch exists is_known batch_after HasUpdate
  process_batch-HasUpdate [] cache h = cc
  process_batch-HasUpdate (txn ∷ txns) cache h =
      let known = is_known existing txn in
      let Tail : Batch × FolderCache → Type 0 = λ b. (known || has_update b) ≡ true in
      let tail_at = λ (drafted : Draft × FolderCache).
        elim (Bool-cases known)
          as (λ _. Returns Tail (process_batch bank item existing txns drafted.1)) [
            | inl e ↦
                always-Returns Tail (process_batch bank item existing txns drafted.1)
                  (λ b. ground arith)
            | inr e ↦ λ w.
                AllOk-weaken HasUpdate Tail (process_batch bank item existing txns drafted.1 w).0
                  (λ b u. ground (arith, u))
                  (process_batch-HasUpdate txns drafted.1 (ground arith) w)
          ] in
      Returns-bind (λ a. Unit {0}) HasUpdate (draft_txn bank item txn cache) (batch_after txn txns)
        (Returns-any (draft_txn bank item txn cache))
        λ drafted any.
          Returns-bind Tail HasUpdate (process_batch bank item existing txns drafted.1)
            (λ rest. pure (add_draft known drafted.0 rest.0, rest.1)) (tail_at drafted)
            (λ rest r w. add_draft-has_update known drafted.0 rest.0 rest.1 r)

existing_ids-is_known :
    (txns : List Txn) (d : Db) {id : Text} {ids : List Text}
    → existing_ids txns d ≡ id ∷ ids
    → exists (is_known (existing_ids txns d)) txns ≡ true
unfolding existing_ids exists is_known
existing_ids-is_known [] d h = cc
existing_ids-is_known (txn ∷ txns) d {id} {ids} h =
    elim (Bool-cases (exists (has_transaction txn.transaction_id) d.records)) [
      | inl e ↦ ground (arith, text_eq_refl txn.transaction_id)
      | inr e ↦ ground (arith, existing_ids-is_known txns d {id = id} {ids = ids})
    ]

archive_existing :
    (txns : List Txn) (id : Text) (now : ℕ) (d : Db)
    → existing_ids txns (record d { records = update (has_transaction id) (archive now) d.records })
      ≡ existing_ids txns d
unfolding existing_ids has_transaction
archive_existing [] id now d = refl
archive_existing (txn ∷ txns) id now d = ground (
  arith,
  exists-update (has_transaction txn.transaction_id) (has_transaction id) (archive now) d.records
      (λ x. refl),
  archive_existing txns id now d,
)

bulk_update_refuses :
    (b : Batch) (cache : FolderCache) (w : World)
    → has_update (b, cache) ≡ true
    → is_ok (bulk_update b.to_update w).0 ≡ false
unfolding bulk_update has_update
bulk_update_refuses b cache w h =
    elim (b.to_update)
        as (λ ds.
          elim ds [ [] ↦ false | d ∷ rest ↦ true ] ≡ true → is_ok (bulk_update ds w).0 ≡ false) [
            | [] ↦ λ e. cc
            | d ∷ rest ↦ λ e. refl
          ]
      h

bulk_create_update-Raises :
    (b : Batch) (cache : FolderCache) → has_update (b, cache) ≡ true → Raises (bulk_create_update b)
unfolding bulk_create_update
bulk_create_update-Raises b cache h =
    Raises-bind (λ a. Unit {0}) (for_each b.to_create create_one) (λ done. bulk_update b.to_update)
      (Returns-any (for_each b.to_create create_one)) λ done any w. bulk_update_refuses b cache w h

store_batch_refuses :
    (bank : Bank) (item : PlaidItem) (txns : List Txn) (cache : FolderCache) (w : World) {id : Text}
    {ids : List Text}
    → existing_ids txns w.db ≡ id ∷ ids
    → is_ok (store_batch bank item txns cache w).0 ≡ false
unfolding store_batch existing_ids HasUpdate
store_batch_refuses bank item [] cache w h = cc
store_batch_refuses bank item (txn ∷ txns) cache w {id} {ids} h =
    let existing = existing_ids (txn ∷ txns) w.db in
    Raises-bind (HasUpdate bank item existing) (process_batch bank item existing (txn ∷ txns) cache)
      (λ processed. bulk_create_update processed.0 >> pure processed.1)
      (process_batch-HasUpdate bank item existing (txn ∷ txns) cache
        (existing_ids-is_known (txn ∷ txns) w.db {id = id} {ids = ids} h))
      (λ processed u.
        Raises-left (bulk_create_update processed.0) (λ done. pure processed.1)
          (bulk_create_update-Raises processed.0 processed.1 u))
      w

-- Removing the page's transactions first changes neither which of the others have a record nor
-- whether it succeeds.
process_removed-Keeps :
    (now : ℕ) (removed : List Text) (stats : Stats) (txns : List Txn) (known : List Text)
    → Keeps (λ w. existing_ids txns w.db ≡ known) (process_removed now removed stats)
unfolding process_removed
process_removed-Keeps now [] stats txns known = Keeps-pure stats
process_removed-Keeps now (id ∷ ids) stats txns known =
    Keeps-bind (gets_db λ d. length (filter (has_transaction id) d.records)) _
      (record { at = λ w h. h })
      λ archived.
        Keeps-bind
          (modify_db
            λ d. record d { records = update (has_transaction id) (archive now) d.records })
          _ (record { at = λ w h. archive_existing txns id now w.db ∙ h })
          λ done.
            process_removed-Keeps now ids
              (record stats { removed_count = stats.removed_count + archived }) txns known

-- A page of which some transaction has a record already cannot be stored: it raises, and the
-- database, with the cursor to resume from, stays as it was.
pub store_page_refuses :
    (bank : Bank) (item : PlaidItem) (cursor id : Text) (ids : List Text) (page : Page)
    (stats : Stats) (cache : FolderCache) (w : World)
    → existing_ids (page.added ++ page.modified) w.db ≡ id ∷ ids
    → let (result, w') = store_page bank item cursor page stats cache w in
      (is_ok result ≡ false) × (w'.db ≡ w.db)
unfolding store_page
store_page_refuses bank item cursor id ids page stats cache w h =
    let removal = process_removed bank.now page.removed stats in
    let batch = page.added ++ page.modified in
    let kept = process_removed-Keeps bank.now page.removed stats batch (id ∷ ids) in
    let save = λ (removed : Stats) (cache' : FolderCache). do
      modify_db (
          save_items (λ row. row.pk == item.pk)
            λ row. record row { next_cursor = cursor_after cursor page })
      pure (counted page removed, cache')
    in let storing = λ (removed : Stats). store_batch bank item batch cache >>= save removed in
      let stored = store_batch bank item batch cache (removal w).1 in
      atomic_failed (removal >>= storing) w (
        raises_after (λ a. Unit {0}) (removal w).0 (removal w).1 storing (AllOk-any (removal w).0)
          λ removed any. raised_left stored.0 stored.1 (save removed) (
            store_batch_refuses bank item batch cache (removal w).1 {id = id} {ids = ids}
              (kept.at w h)))
