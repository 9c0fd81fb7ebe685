-- ===== src/Billing/Storage.antt =====
-- The bytes that a user stores: a counter beside the documents (billing/storage.py), kept by the
-- signals of a document (documents/signals.py).
pub mod Sums
pub mod Counters
pub mod Reconciled
use papertrail.Base.{
  ℕ, ◌+◌, Bool, true, false, not, ◌&&◌, Option, none, some, List, [], ◌∷◌, ◌==◌, ltb, length, map,
  contains, if◌then◌else◌, ℤ, pos, pos_part, ◌+ℤ◌, ◌-ℤ◌, first, filter, update, remove,
}

-- A user's row.
pub record Account : Type 0 where
  pub pk : ℕ
  pub storage_used_bytes : ℕ

-- A document's row; a file whose size is not known yet has none.
pub record DocumentData : Type 0 where
  pub pk : ℕ
  pub user_id : ℕ
  pub file_size : Option ℕ

pub record Store : Type 0 where
  pub accounts : List Account
  pub documents : List DocumentData
  pub next_pk : ℕ

-- `_counted_bytes`.
unfoldable pub counted_bytes : DocumentData → ℕ
counted_bytes d = elim (d.file_size) [ none ↦ 0 | some n ↦ n ]

-- `Greatest(F("storage_used_bytes") + delta, 0)`.
abbrev pub adjusted : ℤ → Account → Account
adjusted delta a = record a { storage_used_bytes = pos_part (pos a.storage_used_bytes +ℤ delta) }

-- `adjust_storage_usage`; it returns at once for a zero, which changes nothing either way.
unfoldable pub adjust_storage_usage : ℕ → ℤ → Store → Store
adjust_storage_usage user_id delta s = record s {
  accounts = update (λ a. a.pk == user_id) (adjusted delta) s.accounts;
}

-- The size that `snapshot_storage_state` finds for a row that is saved again.
unfoldable pub stored_size : ℕ → List DocumentData → ℕ
stored_size pk documents = elim (first (λ d. d.pk == pk) documents) [
  | none ↦ 0
  | some d ↦ counted_bytes d
]

-- A new document: the signals of a save of an instance without a key.
unfoldable pub create_document : ℕ → Option ℕ → Store → Store
create_document user_id size s =
    let d : DocumentData = record { pk = s.next_pk; user_id = user_id; file_size = size } in
    adjust_storage_usage user_id (pos (counted_bytes d) -ℤ pos 0)
      (record s { documents = d ∷ s.documents; next_pk = s.next_pk + 1 })

-- What an instance's save writes: all columns, or only some, with the size among them or not.
pub data UpdateFields : Type 0 where
  all_fields with_size without_size : UpdateFields

writes_size : UpdateFields → Bool
writes_size all_fields = true
writes_size with_size = true
writes_size without_size = false

abbrev pub save_size : ℕ → Option ℕ → List DocumentData → List DocumentData
save_size pk size documents =
    update (λ d. d.pk == pk) (λ d. record d { file_size = size }) documents

-- The save of an instance that was read before: `pre_save`, the row, and `post_save`.
unfoldable pub save_document : UpdateFields → DocumentData → Store → Store
unfolding writes_size
save_document fields d s =
    let size = counted_bytes d in
    if writes_size fields
    then adjust_storage_usage d.user_id (pos size -ℤ pos (stored_size d.pk s.documents))
        (record s { documents = save_size d.pk d.file_size s.documents })
    else adjust_storage_usage d.user_id (pos size -ℤ pos size) s

-- The deletion of an instance, and `remove_storage_counter`.
unfoldable pub delete_document : DocumentData → Store → Store
delete_document d s =
    adjust_storage_usage d.user_id (pos 0 -ℤ pos (counted_bytes d))
      (record s { documents = remove (λ x. x.pk == d.pk) s.documents })

-- `Sum("file_size")` over a user's documents; nulls are left out, and no rows sum to zero.
unfoldable pub total_bytes : ℕ → List DocumentData → ℕ
total_bytes user_id [] = 0
total_bytes user_id (d ∷ ds) =
    let rest = total_bytes user_id ds in
    if d.user_id == user_id then counted_bytes d + rest else rest

-- The users of `docs.values("user_id")`, each once.
unfoldable pub owners : List DocumentData → List ℕ
owners [] = []
owners (d ∷ ds) = let rest = owners ds in if contains d.user_id rest then rest else d.user_id ∷ rest

-- A store and the number of corrected counters.
abbrev pub Corrected : Type 0
Corrected = Store × ℕ

abbrev pub set_bytes : ℕ → Account → Account
set_bytes n a = record a { storage_used_bytes = n }

-- The loop over the totals.
unfoldable pub write_totals : List ℕ → Corrected → Corrected
write_totals [] c = c
write_totals (uid ∷ uids) (s, corrected) = write_totals uids (
  record s {
    accounts = update (λ a. a.pk == uid) (set_bytes (total_bytes uid s.documents)) s.accounts;
  },
  corrected + length (filter (λ a. a.pk == uid) s.accounts),
)

-- The counters above zero of users without documents.
unfoldable pub is_stale : List ℕ → Account → Bool
is_stale uids a = ltb 0 a.storage_used_bytes && not (contains a.pk uids)

unfoldable pub zero_stale : List ℕ → Corrected → Corrected
zero_stale uids (s, corrected) = (
  record s { accounts = update (is_stale uids) (set_bytes 0) s.accounts },
  corrected + length (filter (is_stale uids) s.accounts),
)

-- `reconcile_storage_usage` for all users.
unfoldable pub reconcile_storage_usage : Store → Corrected
reconcile_storage_usage s =
    zero_stale (owners s.documents) (write_totals (owners s.documents) (s, 0))
