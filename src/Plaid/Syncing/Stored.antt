-- ===== src/Plaid/Syncing/Stored.antt =====
-- What a page that was stored leaves behind (`sync_and_convert_for_item_task` of
-- plaid_integration/tasks.py).
use papertrail.Base.{
  ◌≡◌, ◌⊎◌, ℕ, Bool, true, false, none, List, [], ◌∷◌, ◌++◌, ◌==◌, if◌then◌else◌, arith, Text,
  text_eq, Result, ok, raised, inl, inr, Bool-cases, AllOk, AllOk-all, exists, for_each,
  integrity_error, value_error, raise, pure, ◌>>=◌, ◌>>◌, Keeps, Keeps-bind, Keeps-for_each,
  Keeps-pure, Keeps-if, Keeps-raise,
}
use papertrail.Database.{World, M, atomic, modify_db, gets_db}
use papertrail.Plaid.Model.{PlaidItem, Txn, Page}
use papertrail.Plaid.Services.{save_items}
use papertrail.Plaid.Folders.{FolderCache, choose_folder}
use papertrail.Plaid.Syncing.Outcomes.{Returns, Returns-bind, Returns-any}
use papertrail.Plaid.Syncing.{
  Bank, Draft, Batch, Stats, add_draft, draft_of, draft_txn, process_batch, has_transaction,
  insert_record, create_one, primary_category, bulk_update, bulk_create_update, process_removed,
  existing_ids, store_batch, store_page, cursor_after, counted,
}

-- What a method that returns leaves in the world.
abbrev Leaves : {A : Type 0} → (World → Type 0) → M A → Type 0
Leaves Q m = (w : World) → AllOk (λ a. Q (m w).1) (m w).0

left_after :
    {A B : Type 0} (P : A → Type 0) (Q : World → Type 0) (r : Result A) (w : World) (f : A → M B)
    → AllOk P r
    → ((a : A) → P a → Leaves Q (f a))
    → let (r', w') = elim r as (λ _. Result B × World) [
      | ok a ↦ f a w
      | raised e ↦ (raised e, w)
    ] in
      AllOk (λ b. Q w') r'
left_after P Q (ok a) w f h k = k a h w
left_after P Q (raised e) w f h k = tt

Leaves-bind :
    {A B : Type 0} (P : A → Type 0) (Q : World → Type 0) (m : M A) (f : A → M B)
    → Returns P m
    → ((a : A) → P a → Leaves Q (f a))
    → Leaves Q (m >>= f)
Leaves-bind P Q m f h k w = left_after P Q (m w).0 (m w).1 f (h w) k

kept_after :
    {A B : Type 0} (Q : World → Type 0) (r : Result A) (w : World) (f : A → M B)
    → AllOk (λ a. Q w) r
    → ((a : A) → Keeps Q (f a))
    → let (r', w') = elim r as (λ _. Result B × World) [
      | ok a ↦ f a w
      | raised e ↦ (raised e, w)
    ] in
      AllOk (λ b. Q w') r'
kept_after Q (ok a) w f h k = AllOk-all (λ b. Q (f a w).1) (f a w).0 λ b. (k a).at w h
kept_after Q (raised e) w f h k = tt

Leaves-kept :
    {A B : Type 0} (Q : World → Type 0) (m : M A) (f : A → M B)
    → Leaves Q m
    → ((a : A) → Keeps Q (f a))
    → Leaves Q (m >>= f)
Leaves-kept Q m f h k w = kept_after Q (m w).0 (m w).1 f (h w) k

Leaves-if :
    {A : Type 0} (Q : World → Type 0) (b : Bool) (m n : M A)
    → Leaves Q m
    → Leaves Q n
    → Leaves Q (if b then m else n)
Leaves-if Q true m n hm hn = hm
Leaves-if Q false m n hm hn = hn

committed :
    {A : Type 0} (Q : World → Type 0) (r : Result A) (w w' : World)
    → AllOk (λ a. Q w') r
    → let (r', w'') = elim r as (λ _. Result A × World) [
      | ok a ↦ (ok a, w')
      | raised e ↦ (raised e, record w' { db = w.db })
    ] in
      AllOk (λ a. Q w'') r'
committed Q (ok a) w w' h = h
committed Q (raised e) w w' h = tt

atomic-Leaves : {A : Type 0} (Q : World → Type 0) (m : M A) → Leaves Q m → Leaves Q (atomic m)
atomic-Leaves Q m h w = committed Q (m w).0 w (m w).1 (h w)

module _ (id : Text) where
  abbrev is_txn : Txn → Bool
  is_txn txn = text_eq txn.transaction_id id

  -- The drafts, one of which becomes a record of the transaction, whatever its key.
  Carries : List Draft → Type 0
  Carries [] = true ≡ false
  Carries (draft ∷ drafts) = ((pk : ℕ) → has_transaction id (draft.row pk) ≡ true) ⊎ Carries drafts

  NonEmpty : List Draft → Type 0
  NonEmpty [] = true ≡ false
  NonEmpty (draft ∷ drafts) = Unit

  Recorded : World → Type 0
  Recorded w = exists (has_transaction id) w.db.records ≡ true

  create_one-Keeps : (draft : Draft) → Keeps Recorded (create_one draft)
  unfolding create_one Recorded exists
  create_one-Keeps draft =
      Keeps-bind (gets_db λ d. exists (has_transaction draft.transaction_id) d.records) _
        (record { at = λ w h. h })
        λ taken.
          Keeps-if taken (raise integrity_error) (modify_db (insert_record draft))
            (Keeps-raise integrity_error) (record { at = λ w h. ground arith })

  create_one-Leaves :
      (draft : Draft)
      → ((pk : ℕ) → has_transaction id (draft.row pk) ≡ true)
      → Leaves Recorded (create_one draft)
  unfolding create_one Recorded exists
  create_one-Leaves draft h =
      Leaves-bind (λ a. Unit {0}) Recorded
        (gets_db λ d. exists (has_transaction draft.transaction_id) d.records)
        (λ taken. if taken then raise integrity_error else modify_db (insert_record draft))
        (λ w. tt)
        λ taken any.
          Leaves-if Recorded taken (raise integrity_error) (modify_db (insert_record draft))
            (λ w. tt) λ w. ground (arith, h w.db.next_pk)

  created-Leaves :
      (drafts : List Draft) → Carries drafts → Leaves Recorded (for_each drafts create_one)
  unfolding Carries for_each create_one
  created-Leaves [] h = cc
  created-Leaves (draft ∷ drafts) (inl h) =
      Leaves-kept Recorded (create_one draft) (λ _. for_each drafts create_one)
        (create_one-Leaves draft h) λ done. Keeps-for_each drafts create_one create_one-Keeps
  created-Leaves (draft ∷ drafts) (inr h) =
      Leaves-bind (λ a. Unit {0}) Recorded (create_one draft) (λ _. for_each drafts create_one)
        (Returns-any (create_one draft)) λ done any. created-Leaves drafts h

  -- A batch that either cannot be stored or makes a record of the transaction.
  abbrev Batched : Batch × FolderCache → Type 0
  Batched b = NonEmpty b.0.to_update ⊎ Carries b.0.to_create

  add_draft-carries :
      (known : Bool) (draft : Draft) (b : Batch) (cache : FolderCache)
      → ((pk : ℕ) → has_transaction id (draft.row pk) ≡ true)
      → Batched (add_draft known draft b, cache)
  unfolding Carries NonEmpty
  add_draft-carries true draft b cache h = inl tt
  add_draft-carries false draft b cache h = inr (inl h)

  add_draft-Batched :
      (known : Bool) (draft : Draft) (b : Batch) (cache : FolderCache)
      → Batched (b, cache)
      → Batched (add_draft known draft b, cache)
  unfolding Carries NonEmpty
  add_draft-Batched true draft b cache h = inl tt
  add_draft-Batched false draft b cache (inl u) = inl u
  add_draft-Batched false draft b cache (inr u) = inr (inr u)

  abbrev Drafted : Draft × FolderCache → Type 0
  Drafted drafted = (pk : ℕ) → has_transaction id (drafted.0.row pk) ≡ true

  draft_txn-Drafted :
      (bank : Bank) (item : PlaidItem) (txn : Txn) (cache : FolderCache)
      → is_txn txn ≡ true
      → Returns Drafted (draft_txn bank item txn cache)
  unfolding draft_txn draft_of has_transaction
  draft_txn-Drafted bank item txn cache h =
      elim ((bank.settings_of item.user).auto_create_and_organize_folders)
        as (λ b. Returns Drafted (
          if b
          then (choose_folder item.user (primary_category txn) cache >>= λ found.
              pure (draft_of bank item txn found.0, found.1))
          else pure (draft_of bank item txn none, cache))) [
            | true ↦
                Returns-bind (λ a. Unit {0}) Drafted
                  (choose_folder item.user (primary_category txn) cache)
                  (λ found. pure (draft_of bank item txn found.0, found.1))
                  (Returns-any (choose_folder item.user (primary_category txn) cache))
                  λ found any w pk. h
            | false ↦ λ w pk. h
          ]

  module _ (bank : Bank) (item : PlaidItem) (existing : List Text) where
    process_batch-Batched :
        (txns : List Txn) (cache : FolderCache)
        → exists is_txn txns ≡ true
        → Returns Batched (process_batch bank item existing txns cache)
    unfolding process_batch exists
    process_batch-Batched [] cache h = cc
    process_batch-Batched (txn ∷ txns) cache h =
        let known = exists (text_eq txn.transaction_id) existing in
        let draft = draft_txn bank item txn cache in
        let rest =
          λ (drafted : Draft × FolderCache). process_batch bank item existing txns drafted.1 in
        let joined = λ (drafted : Draft × FolderCache) (b : Batch × FolderCache).
          pure {A = Batch × FolderCache} (add_draft known drafted.0 b.0, b.1) in
        let after = λ (drafted : Draft × FolderCache). rest drafted >>= joined drafted in
        elim (Bool-cases (is_txn txn)) [
          | inl e ↦
              Returns-bind Drafted Batched draft after (draft_txn-Drafted bank item txn cache e)
                λ drafted d.
                  Returns-bind (λ a. Unit {0}) Batched (rest drafted) (joined drafted)
                    (Returns-any (rest drafted))
                    λ b any w. add_draft-carries known drafted.0 b.0 b.1 d
          | inr e ↦
              Returns-bind (λ a. Unit {0}) Batched draft after (Returns-any draft)
                λ drafted any.
                  Returns-bind Batched Batched (rest drafted) (joined drafted)
                    (process_batch-Batched txns drafted.1 (ground arith))
                    λ b r w. add_draft-Batched known drafted.0 b.0 b.1 r
        ]

  bulk_update-Keeps : (drafts : List Draft) → Keeps Recorded (bulk_update drafts)
  unfolding bulk_update
  bulk_update-Keeps [] = Keeps-pure tt
  bulk_update-Keeps (draft ∷ drafts) = Keeps-raise value_error

  bulk_update-Leaves :
      (drafts : List Draft) → NonEmpty drafts → Leaves Recorded (bulk_update drafts)
  unfolding bulk_update NonEmpty
  bulk_update-Leaves [] h w = cc
  bulk_update-Leaves (draft ∷ drafts) h w = tt

  bulk_create_update-Leaves :
      (b : Batch) (cache : FolderCache)
      → Batched (b, cache)
      → Leaves Recorded (bulk_create_update b)
  unfolding bulk_create_update
  bulk_create_update-Leaves b cache (inl u) =
      Leaves-bind (λ a. Unit {0}) Recorded (for_each b.to_create create_one)
        (λ _. bulk_update b.to_update) (Returns-any (for_each b.to_create create_one))
        λ done any. bulk_update-Leaves b.to_update u
  bulk_create_update-Leaves b cache (inr u) =
      Leaves-kept Recorded (for_each b.to_create create_one) (λ _. bulk_update b.to_update)
        (created-Leaves b.to_create u) λ done. bulk_update-Keeps b.to_update

  module _ (bank : Bank) (item : PlaidItem) where
    store_batch-Leaves :
        (txns : List Txn) (cache : FolderCache)
        → exists is_txn txns ≡ true
        → Leaves Recorded (store_batch bank item txns cache)
    unfolding store_batch exists
    store_batch-Leaves [] cache h w = cc
    store_batch-Leaves (txn ∷ txns) cache h w =
        let existing = existing_ids (txn ∷ txns) w.db in
        Leaves-bind Batched Recorded (process_batch bank item existing (txn ∷ txns) cache)
          (λ processed. bulk_create_update processed.0 >> pure processed.1)
          (process_batch-Batched bank item existing (txn ∷ txns) cache h)
          (λ processed u.
            Leaves-kept Recorded (bulk_create_update processed.0) (λ done. pure processed.1)
              (bulk_create_update-Leaves processed.0 processed.1 u) λ done. Keeps-pure processed.1)
          w

    -- When a page has been stored, each transaction that it adds or modifies has a record, also one
    -- that the page removes as well.
    pub store_page-Recorded :
        (cursor : Text) (page : Page) (stats : Stats) (cache : FolderCache) (w : World)
        → exists is_txn (page.added ++ page.modified) ≡ true
        → let (result, w') = store_page bank item cursor page stats cache w in
          AllOk (λ stored. exists (has_transaction id) w'.db.records ≡ true) result
    unfolding store_page Recorded
    store_page-Recorded cursor page stats cache w h =
        let removal = process_removed bank.now page.removed stats in
        let batch = page.added ++ page.modified in
        let save = λ (removed : Stats) (cache' : FolderCache). do
          modify_db (
              save_items (λ row. row.pk == item.pk)
                λ row. record row { next_cursor = cursor_after cursor page })
          pure (counted page removed, cache')
        in let storing = λ (removed : Stats). store_batch bank item batch cache >>= save removed in
          atomic-Leaves Recorded (removal >>= storing)
            (Leaves-bind (λ a. Unit {0}) Recorded removal storing (Returns-any removal)
              λ removed any.
                Leaves-kept Recorded (store_batch bank item batch cache) (save removed)
                  (store_batch-Leaves batch cache h) λ cache'. record { at = λ w u. u })
            w
