-- ===== src/Records/Merging/Undo.antt =====
-- Undoing a merge gives back the records as they were (`undo_merge` of records/matching.py).
use papertrail.Base.{
  ◌≡◌, ◌≢◌, refl, ap, ◌∙◌, ℕ, true, false, Option, none, some, List, [], ◌∷◌, ◌==◌, arith, ok, All,
  first, first_holds, first-update, exists, update, is_ok,
}
use papertrail.Database.{Db, World, Env}
use papertrail.Records.Model.{Record, MergeLog}
use papertrail.Records.Merging.{
  record_snapshot, find_record, find_merge, save_fields, save_record, apply_doc_fields,
  restored_fields, belongs_to, document_ids, move_documents, is_active_pair, merge_log,
  insert_merge, deactivated, merge_rows, merge_document_into_plaid, reactivated_doc, restore_plaid,
  restore_document, return_documents, undo_log, undo_merge,
}

-- The database after a merge.
abbrev pub merged_db : Env → Record → Record → Option ℕ → Db → Db
merged_db env plaid doc document d = insert_merge env plaid doc document (document_ids doc.pk d) (
    save_record doc.pk deactivated (
      save_record plaid.pk (save_fields (apply_doc_fields plaid doc))
        (move_documents (belongs_to doc.pk) plaid.pk d)))

abbrev pub merged : Record → Record → Record
merged plaid doc = save_fields (apply_doc_fields plaid doc) plaid

-- An active document record that is not a bank record is merged, unless the pair is merged already.
pub merge_document_into_plaid_merges :
    (env : Env) (plaid doc : Record) (plaid_pk doc_pk : ℕ) (document : Option ℕ) (w : World)
    → find_record plaid_pk w.db ≡ some plaid
    → find_record doc_pk w.db ≡ some doc
    → doc.is_active ≡ true
    → doc.plaid_transaction_id ≡ none
    → exists (is_active_pair plaid.pk doc.pk) w.db.merges ≡ false
    → merge_document_into_plaid env plaid_pk doc_pk document w
      ≡ (ok (some (merged plaid doc)), record w { db = merged_db env plaid doc document w.db })
unfolding merge_document_into_plaid merge_rows
merge_document_into_plaid_merges env plaid doc plaid_pk doc_pk document w ep ed active own free =
    ground arith

abbrev pub IsOnlyRow : Record → Record → ℕ → ℕ → Record → Type 0
IsOnlyRow plaid doc plaid_pk doc_pk r = (r.pk ≡ plaid_pk → r ≡ plaid) × (r.pk ≡ doc_pk → r ≡ doc)

rows_restored :
    (plaid doc : Record) (rows : List Record)
    → plaid.pk ≢ doc.pk
    → doc.is_active ≡ true
    → doc.plaid_transaction_id ≡ none
    → All (IsOnlyRow plaid doc plaid.pk doc.pk) rows
    → update
        (λ r. r.pk == doc.pk)
        reactivated_doc
        (update
          (λ r. r.pk == plaid.pk)
          (save_fields (restored_fields (record_snapshot plaid)))
          (update
            (λ r. r.pk == doc.pk)
            deactivated
            (update (λ r. r.pk == plaid.pk) (save_fields (apply_doc_fields plaid doc)) rows)))
      ≡ rows
unfolding update record_snapshot
rows_restored plaid doc [] other active own h = refl
rows_restored plaid doc (r ∷ rows) other active own ((hp, hd), h) =
    ground (arith, rows_restored plaid doc rows other active own h)

find_record_pk : (pk : ℕ) (d : Db) (r : Record) → find_record pk d ≡ some r → r.pk ≡ pk
unfolding find_record
find_record_pk pk d r e = ground (arith, first_holds (λ r. r.pk == pk) d.records e)

pub plaid_found :
    (env : Env) (plaid doc : Record) (document : Option ℕ) (d : Db)
    → plaid.pk ≢ doc.pk
    → find_record plaid.pk d ≡ some plaid
    → find_record plaid.pk (merged_db env plaid doc document d) ≡ some (merged plaid doc)
unfolding find_record
plaid_found env plaid doc document d other e = ground (
  arith,
  first-update (λ r. r.pk == plaid.pk) (λ r. r.pk == doc.pk) deactivated
      (update (λ r. r.pk == plaid.pk) (save_fields (apply_doc_fields plaid doc)) d.records)
      (λ x. refl),
  first-update (λ r. r.pk == plaid.pk) (λ r. r.pk == plaid.pk)
      (save_fields (apply_doc_fields plaid doc)) d.records (λ x. refl),
)

pub doc_found :
    (env : Env) (plaid doc : Record) (document : Option ℕ) (d : Db)
    → plaid.pk ≢ doc.pk
    → find_record doc.pk d ≡ some doc
    → find_record doc.pk (merged_db env plaid doc document d) ≡ some (deactivated doc)
unfolding find_record
doc_found env plaid doc document d other e = ground (
  arith,
  first-update (λ r. r.pk == doc.pk) (λ r. r.pk == doc.pk) deactivated
      (update (λ r. r.pk == plaid.pk) (save_fields (apply_doc_fields plaid doc)) d.records)
      (λ x. refl),
  first-update (λ r. r.pk == doc.pk) (λ r. r.pk == plaid.pk)
      (save_fields (apply_doc_fields plaid doc)) d.records (λ x. refl),
)

return_documents-records :
    (log : MergeLog) (plaid doc : Option Record) (d : Db)
    → (return_documents log plaid doc d).records ≡ d.records
unfolding return_documents
return_documents-records log plaid none d = refl
return_documents-records log plaid (some r) d = ground arith

pub undo_log-records :
    (env : Env) (log : MergeLog) (p q : Record) (a b : ℕ) (w : World)
    → log.undone_at ≡ none
    → log.plaid_record ≡ some a
    → log.document_record ≡ some b
    → find_record a w.db ≡ some p
    → find_record b w.db ≡ some q
    → p.is_active ≡ true
    → let (result, w') = undo_log env log w in
      (result ≡ ok (some q))
      × (w'.db.records
          ≡ update
              (λ r. r.pk == q.pk)
              reactivated_doc
              (update
                (λ r. r.pk == p.pk)
                (save_fields (restored_fields log.plaid_snapshot))
                w.db.records))
unfolding undo_log restore_plaid restore_document
undo_log-records env log p q a b w fresh ea eb ep eq active =
    let d' = restore_document (some q) (restore_plaid log.plaid_snapshot (some p) w.db) in
    ground (arith, return_documents-records log (some p) (some q) d')

pub undo_found :
    (env : Env) (log : MergeLog) (pk : ℕ) (w : World)
    → find_merge pk w.db ≡ some log
    → is_ok (undo_log env log w).0 ≡ true
    → undo_merge env pk w ≡ undo_log env log w
unfolding undo_merge
undo_found env log pk w e h = ground arith

pub new_merge :
    (env : Env) (plaid doc : Record) (document : Option ℕ) (d : Db)
    → find_merge d.next_pk (merged_db env plaid doc document d)
      ≡ some (merge_log env plaid doc document (document_ids doc.pk d) d.next_pk)
unfolding find_merge first
new_merge env plaid doc document d = ground arith

-- After a merge of an active bank record and an active document record, undoing it succeeds and
-- every record is again as it was before the merge. Primary keys name one row each, and the pair
-- has no active merge yet.
pub undo_merge-merge_document_into_plaid :
    (env later : Env) (plaid doc : Record) (document : Option ℕ) (w : World)
    → find_record plaid.pk w.db ≡ some plaid
    → find_record doc.pk w.db ≡ some doc
    → plaid.is_active ≡ true
    → doc.is_active ≡ true
    → doc.plaid_transaction_id ≡ none
    → plaid.pk ≢ doc.pk
    → exists (is_active_pair plaid.pk doc.pk) w.db.merges ≡ false
    → All (IsOnlyRow plaid doc plaid.pk doc.pk) w.db.records
    → let w' = (merge_document_into_plaid env plaid.pk doc.pk document w).1 in
      let (result, w'') = undo_merge later w.db.next_pk w' in
      (result ≡ ok (some (deactivated doc))) × (w''.db.records ≡ w.db.records)
undo_merge-merge_document_into_plaid env later plaid doc document w ep ed live active own other free
      only =
    let v : World = record w { db = merged_db env plaid doc document w.db } in
    let log = merge_log env plaid doc document (document_ids doc.pk w.db) w.db.next_pk in
    let (result, records) =
      undo_log-records later log (merged plaid doc) (deactivated doc) plaid.pk doc.pk v refl refl
        refl (plaid_found env plaid doc document w.db other ep)
        (doc_found env plaid doc document w.db other ed) live in
    rw
      (
        merge_document_into_plaid_merges env plaid doc plaid.pk doc.pk document w ep ed active own
            free,
        undo_found later log w.db.next_pk v (new_merge env plaid doc document w.db)
            (ap is_ok result),
      )
      (result, records ∙ rows_restored plaid doc w.db.records other active own only)
