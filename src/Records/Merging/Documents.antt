-- ===== src/Records/Merging/Documents.antt =====
-- Undoing a merge gives the documents back to their record (`undo_merge` of records/matching.py).
use papertrail.Base.{
  ◌≡◌, ◌≢◌, refl, ap, ◌∙◌, ℕ, true, false, Option, none, some, List, [], ◌∷◌, arith, is_ok,
  KeysUnique, update-update_found, exists, update, contains,
}
use papertrail.Database.{Db, World, Env}
use papertrail.Records.Model.{Record, Document, MergeLog}
use papertrail.Records.Merging.{
  find_record, belongs_to, document_ids, is_empty, is_active_pair, merge_log, deactivated,
  merge_document_into_plaid, restore_plaid, restore_document, return_documents, undo_log,
  undo_merge,
}
use papertrail.Records.Merging.Undo.{
  merged_db, merged, merge_document_into_plaid_merges, plaid_found, doc_found, undo_log-records,
  undo_found, new_merge,
}

abbrev pub moved_to : ℕ → Document → Document
moved_to pk x = record x { associated_record = some pk }

there_and_back :
    (a b : ℕ) (xs : List Document) → update (belongs_to b) (λ x. moved_to b (moved_to a x)) xs ≡ xs
unfolding update
there_and_back a b [] = refl
there_and_back a b (x ∷ xs) = ground (arith, there_and_back a b xs)

restore_plaid-documents :
    (snap : _) (found : Option Record) (d : Db)
    → (restore_plaid snap found d).documents ≡ d.documents
unfolding restore_plaid
restore_plaid-documents snap none d = refl
restore_plaid-documents snap (some p) d = ground arith

undo_log-documents :
    (env : Env) (log : MergeLog) (p q : Record) (a b : ℕ) (w : World)
    → log.undone_at ≡ none
    → log.plaid_record ≡ some a
    → log.document_record ≡ some b
    → find_record a w.db ≡ some p
    → find_record b w.db ≡ some q
    → is_empty log.document_ids ≡ false
    → (undo_log env log w).1.db.documents
      ≡ update (λ x. contains x.pk log.document_ids) (moved_to q.pk) w.db.documents
unfolding undo_log restore_document return_documents
undo_log-documents env log p q a b w fresh ea eb ep eq some_ids =
    ground (arith, restore_plaid-documents log.plaid_snapshot (some p) w.db)

-- If the document's record had documents, then after a merge, which gives them to the bank record,
-- and its undoing every document belongs to the record that it belonged to before the merge.
-- Primary keys of documents are unique, and the pair has no active merge yet.
pub undo_merge-documents :
    (env later : Env) (plaid doc : Record) (document : Option ℕ) (w : World)
    → find_record plaid.pk w.db ≡ some plaid
    → find_record doc.pk w.db ≡ some doc
    → plaid.is_active ≡ true
    → doc.is_active ≡ true
    → doc.plaid_transaction_id ≡ none
    → plaid.pk ≢ doc.pk
    → exists (is_active_pair plaid.pk doc.pk) w.db.merges ≡ false
    → is_empty (document_ids doc.pk w.db) ≡ false
    → KeysUnique (λ x. x.pk) w.db.documents
    → let w' = (merge_document_into_plaid env plaid.pk doc.pk document w).1 in
      (w'.db.documents ≡ update (belongs_to doc.pk) (moved_to plaid.pk) w.db.documents)
      × ((undo_merge later w.db.next_pk w').1.db.documents ≡ w.db.documents)
undo_merge-documents env later plaid doc document w ep ed live active own other free some_ids
      unique =
    let v : World = record w { db = merged_db env plaid doc document w.db } in
    let log = merge_log env plaid doc document (document_ids doc.pk w.db) w.db.next_pk in
    let p = plaid_found env plaid doc document w.db other ep in
    let q = doc_found env plaid doc document w.db other ed in
    let (result, _) =
      undo_log-records later log (merged plaid doc) (deactivated doc) plaid.pk doc.pk v refl refl
        refl p q live in
    rw
      (
        merge_document_into_plaid_merges env plaid doc plaid.pk doc.pk document w ep ed active own
            free,
        undo_found later log w.db.next_pk v (new_merge env plaid doc document w.db)
            (ap is_ok result),
      )
      (
        refl,
        undo_log-documents later log (merged plaid doc) (deactivated doc) plaid.pk doc.pk v refl
              refl refl p q some_ids
            ∙ (update-update_found (λ x. x.pk) (belongs_to doc.pk) (moved_to plaid.pk)
                  (moved_to doc.pk) w.db.documents (λ x. refl) unique
                ∙ there_and_back plaid.pk doc.pk w.db.documents),
      )
