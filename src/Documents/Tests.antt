-- ===== src/Documents/Tests.antt =====
-- An upload that is confirmed, for a user on the free plan.
use papertrail.Base.{true, none, some, [], ◌∷◌, text}
use papertrail.Billing.Plans.{Subscriber}
use papertrail.Documents.Uploads.{
  pending_upload, UploadedDocument, Uploads, Bucket, confirm, validate,
}
use papertrail.Documents.Uploads.Quota.{WithinLimit, confirm-WithinLimit}

abbrev subscriber : Subscriber
subscriber = record { is_authenticated = true; customer = []; linked = []; subscription = none }

abbrev scan : UploadedDocument
scan = record {
  counted = record { pk = 1; user_id = 7; file_size = none };
  columns = record {
    pk = 1;
    filepath = text "7/scan.pdf";
    status = pending_upload;
    notes = [];
    mime_type = [];
  };
}

abbrev uploads : Uploads
uploads = record {
  store = record {
    accounts = record { pk = 7; storage_used_bytes = 100 } ∷ [];
    documents = scan.counted ∷ [];
    next_pk = 2;
  };
  rows = scan.columns ∷ [];
}

abbrev bucket : Bucket
bucket = record {
  get_r2_object_head =
      λ key. some (record { content_length = some 300; content_type = text "application/pdf" });
  show_gb = λ n. [];
}

confirm-WithinLimit_example :
    WithinLimit subscriber 7 uploads (confirm bucket subscriber scan (text "7/scan.pdf") uploads)
    × WithinLimit subscriber 7 uploads (validate bucket subscriber scan (text "7/scan.pdf") uploads)
confirm-WithinLimit_example = confirm-WithinLimit bucket subscriber scan uploads (text "7/scan.pdf")
