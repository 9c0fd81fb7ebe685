-- ===== src/Billing/Storage/Counters.antt =====
-- The counters agree with the documents through every signal (documents/signals.py).
use papertrail.Base.{
  ◌≡◌, refl, sym, ◌∙◌, ℕ, ◌+◌, ◌<◌, true, false, Option, some, List, [], ◌∷◌, ◌==◌, arith, map,
  contains, pos, ◌-ℤ◌, ◌+ℤ◌, ℤ, pos_part, inl, inr, Bool-cases, All, All-map, All-update,
  All-remove, KeysUnique-update, KeysUnique-remove, KeysUnique, first, update, remove,
}
use papertrail.Billing.Storage.{
  Account, DocumentData, Store, counted_bytes, adjusted, adjust_storage_usage, stored_size,
  create_document, UpdateFields, all_fields, with_size, without_size, save_size, save_document,
  delete_document, total_bytes,
}
use papertrail.Billing.Storage.Sums.{
  grows, total_saved, total_saved_other, moved, stored_size_found, total_removed,
  total_removed_other,
}

-- The counter of every account is the sum of its documents.
abbrev pub CountersAgree : Store → Type 0
CountersAgree s = All (λ a. a.storage_used_bytes ≡ total_bytes a.pk s.documents) s.accounts

-- A change of the documents by which one user's sum changes as the counter does, and no other.
agree_after :
    (user_id : ℕ) (delta : ℤ) (before after : List DocumentData) (accounts : List Account)
    → ((u : ℕ)
        → (u == user_id) ≡ true
        → pos_part (pos (total_bytes u before) +ℤ delta) ≡ total_bytes u after)
    → ((u : ℕ) → (u == user_id) ≡ false → total_bytes u before ≡ total_bytes u after)
    → All (λ a. a.storage_used_bytes ≡ total_bytes a.pk before) accounts
    → All
        (λ a. a.storage_used_bytes ≡ total_bytes a.pk after)
        (update (λ a. a.pk == user_id) (adjusted delta) accounts)
unfolding update
agree_after user_id delta before after [] same other h = tt
agree_after user_id delta before after (a ∷ accounts) same other (h, hs) =
    elim (Bool-cases (a.pk == user_id)) [
      | inl e ↦
          rw e (rw h (same a.pk e), agree_after user_id delta before after accounts same other hs)
      | inr e ↦
          rw e (h ∙ other a.pk e, agree_after user_id delta before after accounts same other hs)
    ]

-- A new document of any user.
create_document-CountersAgree :
    (user_id : ℕ) (size : Option ℕ) (s : Store)
    → CountersAgree s
    → CountersAgree (create_document user_id size s)
unfolding create_document adjust_storage_usage total_bytes
create_document-CountersAgree user_id size s h =
    let d : DocumentData = record { pk = s.next_pk; user_id = user_id; file_size = size } in
    agree_after user_id (pos (counted_bytes d) -ℤ pos 0) s.documents (d ∷ s.documents) s.accounts
      (λ u e. ground (arith, grows (counted_bytes d) (total_bytes u s.documents)))
      (λ u e. ground arith) h

saved :
    (d row : DocumentData) (s : Store)
    → first (λ x. x.pk == d.pk) s.documents ≡ some row
    → row.user_id ≡ d.user_id
    → KeysUnique (λ x. x.pk) s.documents
    → CountersAgree s
    → CountersAgree (save_document all_fields d s)
unfolding save_document adjust_storage_usage counted_bytes
saved d row s e o unique h =
    agree_after d.user_id (pos (counted_bytes d) -ℤ pos (stored_size d.pk s.documents)) s.documents
      (save_size d.pk d.file_size s.documents) s.accounts
      (λ u k. moved (counted_bytes d) (stored_size d.pk s.documents) _ _ (
        ground (
          arith,
          total_saved d.pk u d.file_size s.documents {row = row} unique e,
          stored_size_found d.pk s.documents {row = row} e,
        )))
      (λ u k.
        sym (total_saved_other d.pk u d.file_size s.documents {row = row} unique e (ground arith)))
      h

-- The save of an instance of a row, of whatever fields.
save_document-CountersAgree :
    (fields : UpdateFields) (d row : DocumentData) (s : Store)
    → first (λ x. x.pk == d.pk) s.documents ≡ some row
    → row.user_id ≡ d.user_id
    → KeysUnique (λ x. x.pk) s.documents
    → CountersAgree s
    → CountersAgree (save_document fields d s)
unfolding save_document adjust_storage_usage
save_document-CountersAgree all_fields d row s e o unique h = saved d row s e o unique h
save_document-CountersAgree with_size d row s e o unique h = saved d row s e o unique h
save_document-CountersAgree without_size d row s e o unique h =
    agree_after d.user_id (pos (counted_bytes d) -ℤ pos (counted_bytes d)) s.documents s.documents
      s.accounts (λ u k. moved (counted_bytes d) (counted_bytes d) _ _ refl) (λ u k. refl) h

-- The deletion of an instance that is its row.
delete_document-CountersAgree :
    (row : DocumentData) (s : Store)
    → first (λ x. x.pk == row.pk) s.documents ≡ some row
    → KeysUnique (λ x. x.pk) s.documents
    → CountersAgree s
    → CountersAgree (delete_document row s)
unfolding delete_document adjust_storage_usage
delete_document-CountersAgree row s e unique h =
    agree_after row.user_id (pos 0 -ℤ pos (counted_bytes row)) s.documents
      (remove (λ x. x.pk == row.pk) s.documents) s.accounts
      (λ u k.
        moved 0 (counted_bytes row) _ _
          (ground (arith, total_removed row.pk u s.documents {row = row} unique e)))
      (λ u k. sym (total_removed_other row.pk u s.documents {row = row} unique e (ground arith))) h

-- Every document's key is below the next one.
abbrev KeysBelow : Store → Type 0
KeysBelow s = All (λ d. d.pk < s.next_pk) s.documents

-- One change of the documents: a document of a user, and the save or the deletion of an instance
-- that was read before.
pub data Change : Type 0 where
  creates : ℕ → Option ℕ → Change
  saves : UpdateFields → DocumentData → Change
  deletes : DocumentData → Change

-- A change, with its signals.
abbrev pub changed : Change → Store → Store
changed (creates user_id size) s = create_document user_id size s
changed (saves fields d) s = save_document fields d s
changed (deletes d) s = delete_document d s

-- A saved instance has a row, of its user; a deleted one is its row still.
abbrev pub IsCurrent : Change → Store → Type 0
IsCurrent (creates user_id size) s = Unit
IsCurrent (saves fields d) s =
    (row : DocumentData) × (first (λ x. x.pk == d.pk) s.documents ≡ some row)
    × (row.user_id ≡ d.user_id)
IsCurrent (deletes d) s = first (λ x. x.pk == d.pk) s.documents ≡ some d

unfoldable pub changed_by : List Change → Store → Store
changed_by [] s = s
changed_by (c ∷ cs) s = changed_by cs (changed c s)

-- Every change is current when its turn comes.
unfoldable pub AllCurrent : List Change → Store → Type 0
AllCurrent [] s = Unit
AllCurrent (c ∷ cs) s = IsCurrent c s × AllCurrent cs (changed c s)

abbrev pub IsSound : Store → Type 0
IsSound s = CountersAgree s × KeysUnique (λ d. d.pk) s.documents × KeysBelow s

fresh_key :
    (pk : ℕ) (documents : List DocumentData)
    → All (λ d. d.pk < pk) documents
    → contains pk (map (λ d. d.pk) documents) ≡ false
unfolding contains
fresh_key pk [] h = refl
fresh_key pk (d ∷ ds) (k, h) = ground (arith, fresh_key pk ds h)

raised_bound :
    (n : ℕ) (documents : List DocumentData)
    → All (λ d. d.pk < n) documents
    → All (λ d. d.pk < n + 1) documents
raised_bound n documents h = All-map documents (λ d k. omega (arith, k)) h

-- The rows after a save of the size.
keys_written :
    (pk : ℕ) (size : Option ℕ) (n : ℕ) (documents : List DocumentData)
    → KeysUnique (λ d. d.pk) documents
    → All (λ d. d.pk < n) documents
    → KeysUnique (λ d. d.pk) (save_size pk size documents)
      × All (λ d. d.pk < n) (save_size pk size documents)
keys_written pk size n documents unique below = (
  KeysUnique-update (λ d. d.pk) (λ d. d.pk == pk) (λ d. record d { file_size = size }) documents
      (λ d. refl) unique,
  All-update (λ d. d.pk < n) (λ d. d.pk == pk) (λ d. record d { file_size = size }) documents
      (λ d k h. h) below,
)

changed-IsSound : (c : Change) (s : Store) → IsCurrent c s → IsSound s → IsSound (changed c s)
unfolding create_document save_document delete_document adjust_storage_usage
changed-IsSound (creates user_id size) s now (agree, unique, below) = (
  create_document-CountersAgree user_id size s agree,
  (fresh_key s.next_pk s.documents below, unique),
  (omega arith, raised_bound s.next_pk s.documents below),
)
changed-IsSound (saves all_fields d) s (row, e, o) (agree, unique, below) =
    let keys = keys_written d.pk d.file_size s.next_pk s.documents unique below in
    (save_document-CountersAgree all_fields d row s e o unique agree, keys.0, keys.1)
changed-IsSound (saves with_size d) s (row, e, o) (agree, unique, below) =
    let keys = keys_written d.pk d.file_size s.next_pk s.documents unique below in
    (save_document-CountersAgree with_size d row s e o unique agree, keys.0, keys.1)
changed-IsSound (saves without_size d) s (row, e, o) (agree, unique, below) =
    (save_document-CountersAgree without_size d row s e o unique agree, unique, below)
changed-IsSound (deletes d) s e (agree, unique, below) = (
  delete_document-CountersAgree d s e unique agree,
  KeysUnique-remove (λ x. x.pk) (λ x. x.pk == d.pk) s.documents unique,
  All-remove _ (λ x. x.pk == d.pk) s.documents below,
)

-- Start from documents with different keys, below the next one, and counters that agree with them.
-- Let documents be created, saved and deleted in any sequence, for any users, where each instance
-- that is saved has a row of the same user, and each instance that is deleted still equals its row,
-- in its size too. Then the counter of every account is still the sum of the sizes of its
-- documents.
pub changed_by-CountersAgree :
    (changes : List Change) (s : Store)
    → AllCurrent changes s
    → IsSound s
    → CountersAgree (changed_by changes s)
unfolding AllCurrent changed_by
changed_by-CountersAgree [] s now sound = sound.0
changed_by-CountersAgree (c ∷ cs) s (now, later) sound =
    changed_by-CountersAgree cs (changed c s) later (changed-IsSound c s now sound)
