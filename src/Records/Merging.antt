-- ===== src/Records/Merging.antt =====
-- records/matching.py: merging a document's record into a bank transaction's, and undoing it.
pub mod Undo
pub mod Documents
use papertrail.Base.{
  ℕ, ◌+◌, Bool, true, false, not, ◌&&◌, ◌||◌, Option, none, some, is_some, List, [], ◌∷◌, ◌==◌,
  if◌then◌else◌, map, contains, Text, is_blank, or_text, Error, does_not_exist, integrity_error,
  Result, ok, raised, pure, raise, ◌>>=◌, ◌>>◌, first, filter, update, exists,
}
use papertrail.Database.{Db, Env, M, atomic, modify_db, gets_db}
use papertrail.Records.Model.{RecordType, financial_document, Record, Document, Snapshot, MergeLog}

unfoldable pub record_snapshot : Record → Snapshot
record_snapshot r = record {
  products = r.products;
  notes = r.notes;
  record_type = r.record_type;
  folder = r.folder;
  is_active = r.is_active;
  plaid_transaction_id = r.plaid_transaction_id;
  title = r.title;
  merchant = r.merchant;
  balance = r.balance;
  transaction_date = r.transaction_date;
  currency = r.currency;
  payment_method = r.payment_method;
}

abbrev or_raise : {A : Type 0} → Option A → M A
or_raise none = raise does_not_exist
or_raise (some a) = pure a

unfoldable pub find_record : ℕ → Db → Option Record
find_record pk d = first (λ r. r.pk == pk) d.records

unfoldable pub find_merge : ℕ → Db → Option MergeLog
find_merge pk d = first (λ m. m.pk == pk) d.merges

-- The columns `PLAID_RESTORE_FIELDS`, as an instance saves them.
pub record RestoreFields : Type 0 where
  pub products : Text
  pub notes : Text
  pub record_type : RecordType
  pub folder : Option ℕ
  pub payment_method : Text

abbrev pub save_fields : RestoreFields → Record → Record
save_fields v row = record row {
  products = v.products;
  notes = v.notes;
  record_type = v.record_type;
  folder = v.folder;
  payment_method = v.payment_method;
}

abbrev pub save_record : ℕ → (Record → Record) → Db → Db
save_record pk f d = record d { records = update (λ r. r.pk == pk) f d.records }

merged_type : RecordType → RecordType → RecordType
merged_type old financial_document = old
merged_type old new = new

merged_folder : Option ℕ → Option ℕ → Option ℕ
merged_folder old none = old
merged_folder old (some f) = if f == 0 then old else some f

-- `_apply_doc_fields_to_plaid`.
unfoldable pub apply_doc_fields : Record → Record → RestoreFields
unfolding merged_type merged_folder
apply_doc_fields plaid doc = record {
  products = or_text doc.products plaid.products;
  notes = or_text doc.notes plaid.notes;
  record_type = merged_type plaid.record_type doc.record_type;
  folder = merged_folder plaid.folder doc.folder;
  payment_method = or_text plaid.payment_method doc.payment_method;
}

-- `_restore_plaid_from_snapshot`.
abbrev pub restored_fields : Snapshot → RestoreFields
restored_fields snap = record {
  products = snap.products;
  notes = snap.notes;
  record_type = snap.record_type;
  folder = snap.folder;
  payment_method = snap.payment_method;
}

abbrev pub belongs_to : ℕ → Document → Bool
belongs_to pk document = elim (document.associated_record) [ none ↦ false | some r ↦ r == pk ]

abbrev pub document_ids : ℕ → Db → List ℕ
document_ids pk d = map (λ x. x.pk) (filter (belongs_to pk) d.documents)

abbrev pub move_documents : (Document → Bool) → ℕ → Db → Db
move_documents which pk d = record d {
  documents = update which (λ x. record x { associated_record = some pk }) d.documents;
}

abbrev refers : ℕ → Option ℕ → Bool
refers pk none = false
refers pk (some k) = k == pk

-- The constraint `unique_active_merge`.
unfoldable pub is_active_pair : ℕ → ℕ → MergeLog → Bool
is_active_pair plaid_pk doc_pk m =
    not (is_some m.undone_at) && (refers plaid_pk m.plaid_record && refers doc_pk m.document_record)

abbrev pub merge_log : Env → Record → Record → Option ℕ → List ℕ → ℕ → MergeLog
merge_log env plaid doc document ids pk = record {
  pk = pk;
  plaid_record = some plaid.pk;
  document_record = some doc.pk;
  document = document;
  plaid_snapshot = record_snapshot plaid;
  document_snapshot = record_snapshot doc;
  document_ids = ids;
  created_at = env.now;
  undone_at = none;
}

abbrev pub insert_merge : Env → Record → Record → Option ℕ → List ℕ → Db → Db
insert_merge env plaid doc document ids d = record d {
  merges = merge_log env plaid doc document ids d.next_pk ∷ d.merges;
  next_pk = d.next_pk + 1;
}

abbrev pub deactivated : Record → Record
deactivated row = record row { is_active = false }

unfoldable pub merge_rows : Env → Record → Record → Option ℕ → M (Option Record)
merge_rows env plaid doc document =
    if not doc.is_active || is_some doc.plaid_transaction_id then pure none else do
      ids ← gets_db (document_ids doc.pk)
      modify_db (move_documents (belongs_to doc.pk) plaid.pk)
      modify_db (save_record plaid.pk (save_fields (apply_doc_fields plaid doc)))
      modify_db (save_record doc.pk deactivated)
      taken ← gets_db (λ d. exists (is_active_pair plaid.pk doc.pk) d.merges)
      if taken then raise integrity_error else do
        modify_db (insert_merge env plaid doc document ids)
        pure (some (save_fields (apply_doc_fields plaid doc) plaid))

-- `merge_document_into_plaid`.
unfoldable pub merge_document_into_plaid : Env → ℕ → ℕ → Option ℕ → M (Option Record)
unfolding merge_rows
merge_document_into_plaid env plaid_pk doc_pk document = atomic do
  plaid ← or_raise (← gets_db (find_record plaid_pk))
  doc ← or_raise (← gets_db (find_record doc_pk))
  merge_rows env plaid doc document

abbrev find_key : Option ℕ → Db → Option Record
find_key none d = none
find_key (some pk) d = find_record pk d

-- A bank record that is still active gets its columns back.
unfoldable pub restore_plaid : Snapshot → Option Record → Db → Db
restore_plaid snap none d = d
restore_plaid snap (some plaid) d =
    if plaid.is_active then save_record plaid.pk (save_fields (restored_fields snap)) d else d

abbrev pub reactivated_doc : Record → Record
reactivated_doc row = record row { is_active = true; plaid_transaction_id = none }

-- `_restore_document_record`.
unfoldable pub restore_document : Option Record → Db → Db
restore_document none d = d
restore_document (some doc) d = save_record doc.pk reactivated_doc d

abbrev pub is_empty : List ℕ → Bool
is_empty [] = true
is_empty (_ ∷ _) = false

-- The documents go back to the document's record: those that the merge moved, or else the one
-- that the log names.
unfoldable pub return_documents : MergeLog → Option Record → Option Record → Db → Db
return_documents log plaid none d = d
return_documents log plaid (some doc) d =
    if is_some plaid && not (is_empty log.document_ids)
    then move_documents (λ x. contains x.pk log.document_ids) doc.pk d
    else move_documents (λ x. refers x.pk log.document) doc.pk d

abbrev pub save_undone : Env → ℕ → Db → Db
save_undone env pk d = record d {
  merges = update (λ m. m.pk == pk) (λ m. record m { undone_at = some env.now }) d.merges;
}

unfoldable pub undo_log : Env → MergeLog → M (Option Record)
unfolding restore_plaid restore_document return_documents
undo_log env log = if is_some log.undone_at then pure none else do
  plaid ← gets_db (find_key log.plaid_record)
  doc ← gets_db (find_key log.document_record)
  modify_db (restore_plaid log.plaid_snapshot plaid)
  modify_db (restore_document doc)
  modify_db (return_documents log plaid doc)
  modify_db (save_undone env log.pk)
  pure doc

-- `undo_merge`.
unfoldable pub undo_merge : Env → ℕ → M (Option Record)
unfolding undo_log
undo_merge env pk = atomic do log ← or_raise (← gets_db (find_merge pk)); undo_log env log
