-- ===== src/Documents/Uploads.antt =====
-- documents/services/validation.py: the checks of a file that was uploaded to object storage, and its
-- confirmation, which counts its bytes.
pub mod Quota
use papertrail.Base.{
  ℕ, ◌*◌, Bool, true, false, not, ◌&&◌, Option, none, some, List, [], ◌∷◌, ◌++◌, ◌==◌, ltb,
  if◌then◌else◌, Text, text, text_eq, or_text, strip, update,
}
use papertrail.Billing.Storage.{
  DocumentData, Store, UpdateFields, with_size, without_size, save_document,
}
use papertrail.Billing.Plans.{Subscriber}
use papertrail.Billing.Entitlements.{get_storage_limit, can_add_storage}

-- `DocumentStatus`.
pub data DocumentStatus : Type 0 where
  pending_upload uploaded processing completed error deleting : DocumentStatus

status_text : DocumentStatus → Text
status_text pending_upload = text "pending_upload"
status_text uploaded = text "uploaded"
status_text processing = text "processing"
status_text completed = text "completed"
status_text error = text "error"
status_text deleting = text "deleting"

is_pending : DocumentStatus → Bool
is_pending pending_upload = true
is_pending _ = false

-- The columns of a document that the storage accounting does not read.
pub record UploadColumns : Type 0 where
  pub pk : ℕ
  pub filepath : Text
  pub status : DocumentStatus
  pub notes : Text
  pub mime_type : Text

-- An instance of `DocumentData`: the columns that are counted, and those that are not.
pub record UploadedDocument : Type 0 where
  pub counted : DocumentData
  pub columns : UploadColumns

pub record Uploads : Type 0 where
  pub store : Store
  pub rows : List UploadColumns

-- What object storage tells of a file; either value may be missing.
pub record Head : Type 0 where
  pub content_length : Option ℕ
  pub content_type : Text

-- The outside: the head of the object under a key, if there is one, and the display of a number of
-- gigabytes, given in halves.
pub record Bucket : Type 0 where
  pub get_r2_object_head : Text → Option Head
  pub show_gb : ℕ → Text

pub record UploadResult : Type 0 where
  pub valid : Bool
  pub error : Option Text
  pub status_code : ℕ
  pub document : Option UploadedDocument
  pub file_size : Option ℕ
  pub mime_type : Option Text

abbrev pub max_file_size : ℕ
max_file_size = 50 * 1024 * 1024

abbrev pub failed : Text → ℕ → UploadResult
failed message code = record {
  valid = false;
  error = some message;
  status_code = code;
  document = none;
  file_size = none;
  mime_type = none;
}

-- `document.save(update_fields=...)`, with the signals of the save.
abbrev pub save_upload :
    UpdateFields → (UploadColumns → UploadColumns) → UploadedDocument → Uploads → Uploads
save_upload fields f document s = record {
  store = save_document fields document.counted s.store;
  rows = update (λ row. row.pk == document.columns.pk) f s.rows;
}

-- A rejected file: the status and a remark are saved.
abbrev pub save_error : Text → UploadedDocument → Uploads → Uploads
save_error remark document =
    save_upload without_size
      (λ row. record row { status = error; notes = strip (document.columns.notes ++ remark) })
      document

-- `.split(";")[0]`.
before_semicolon : Text → Text
before_semicolon [] = []
before_semicolon (c ∷ s) = let rest = before_semicolon s in if c == 59 then [] else c ∷ rest

unfoldable pub mime_type_of : Head → Text
unfolding before_semicolon
mime_type_of head = strip (before_semicolon head.content_type)

is_empty_file : Option ℕ → Bool
is_empty_file none = false
is_empty_file (some size) = size == 0

is_too_large : Option ℕ → Bool
is_too_large none = false
is_too_large (some size) = ltb max_file_size size

exceeds_limit : Subscriber → ℕ → Store → Option ℕ → Bool
exceeds_limit u user_pk store none = false
exceeds_limit u user_pk store (some size) = not (can_add_storage u user_pk size store)

limit_message : Bucket → Subscriber → Text → Text → Text
limit_message bucket u before after =
    before ++ (bucket.show_gb (get_storage_limit u) ++ (text " GB)" ++ after))

-- The document when its file has passed.
abbrev pub accepted : Head → UploadedDocument → UploadedDocument
accepted head document = record {
  counted = record document.counted { file_size = head.content_length };
  columns = record document.columns {
    status = uploaded;
    mime_type = or_text (mime_type_of head) document.columns.mime_type;
  };
}

unfoldable pub save_accepted : Bool → Head → UploadedDocument → Uploads → UploadResult × Uploads
save_accepted transition head document s =
    let document' = accepted head document in
    (
      record {
        valid = true;
        error = none;
        status_code = 200;
        document = if transition then some document' else none;
        file_size = head.content_length;
        mime_type = some (mime_type_of head);
      },
      if transition
          then save_upload with_size
              (λ row. record row { status = uploaded; mime_type = document'.columns.mime_type })
              document' s
          else s,
    )

-- `_run_checks`, once the object has been found.
unfoldable pub check_head :
    Bucket → Subscriber → Bool → Head → UploadedDocument → Uploads → UploadResult × Uploads
unfolding is_empty_file is_too_large exceeds_limit limit_message save_accepted
check_head bucket u transition head document s =
    if is_empty_file head.content_length
    then (
      failed (text "Empty file rejected.") 422,
      save_error (10 ∷ text "[Gatekeeper] Empty file rejected.") document s,
    )
    else if is_too_large head.content_length
    then (
      failed (text "File exceeds 50.0MB limit.") 422,
      save_error (10 ∷ text "[Gatekeeper] File exceeds 50.0MB limit.") document s,
    )
    else if transition && exceeds_limit u document.counted.user_id s.store head.content_length
    then (
      failed (limit_message bucket u (text "Storage limit (") (text " reached.")) 422,
      save_error
          (10
            ∷ limit_message bucket u (text "[Storage] Upload rejected: storage limit (")
                (text " reached."))
          document s,
    )
    else save_accepted transition head document s

-- `_run_checks`; the subscriber is the document's user.
unfoldable pub run_checks :
    Bucket → Subscriber → Bool → UploadedDocument → Text → Uploads → UploadResult × Uploads
unfolding check_head
run_checks bucket u transition document key s =
    if not (text_eq document.columns.filepath key)
    then (failed (text "Key mismatch.") 400, s)
    else elim (bucket.get_r2_object_head key) [
      | none ↦ (
        failed (text "File not found in storage.") 404,
        save_upload without_size (λ row. record row { status = error }) document s,
      )
      | some head ↦ check_head bucket u transition head document s
    ]

unfoldable pub validate :
    Bucket → Subscriber → UploadedDocument → Text → Uploads → UploadResult × Uploads
unfolding is_pending status_text
validate bucket u document key s =
    if not (is_pending document.columns.status)
    then (
      failed (text "Unexpected status: " ++ (status_text document.columns.status ++ text ".")) 409,
      s,
    )
    else run_checks bucket u false document key s

unfoldable pub confirm :
    Bucket → Subscriber → UploadedDocument → Text → Uploads → UploadResult × Uploads
confirm bucket u document key s = run_checks bucket u true document key s
