-- ===== src/Records/Tests.antt =====
-- Grants and revocations of one record.
mod Matches
use papertrail.Base.{
  text_eq, lower, strip, ◌&&◌, ◌||◌, ◌≡◌, refl, true, false, none, some, [], ◌∷◌, List, text, ok,
  raised, not_owner, self_share, is_ok, first, exists, arith,
}
use papertrail.Money.PlatformFee.{default_settings}
use papertrail.Records.Model.{
  User, Record, RecordShare, expense_receipt, edit, unstated, share_is_active,
}
use papertrail.Records.Shares.{default_config, grant_access, revoke_share, is_visible_to}
use papertrail.Records.Shares.Access.{
  PairsUnique, grant_access_not_owner, grant_access_self, grant_access-is_visible_to,
}
use papertrail.Records.Shares.Revocation.{revoke_share-is_visible_to}
use papertrail.Records.Merging.{find_record, deactivated, merge_document_into_plaid, undo_merge}
use papertrail.Records.Merging.{belongs_to}
use papertrail.Records.Merging.Documents.{moved_to, undo_merge-documents}
use papertrail.Records.Services.{is_selected, set_active, bulk_toggle_archive}
use papertrail.Records.Services.Bulk.{bulk_toggle_archive_toggles}
use papertrail.Base.{update, filter, contains, length, ◌+◌}
use papertrail.Records.Merging.Undo.{undo_merge-merge_document_into_plaid}
use papertrail.Records.Shares.Uniqueness.{
  grant_access-PairsUnique, revoke_share-PairsUnique, grant_access_idempotent,
}
use papertrail.Records.Shares.Access.{PairsUnique}
use papertrail.Records.Shares.Uniqueness.{grant_access-PairsUnique}
use papertrail.Records.Shares.Recipients.{
  resolve_recipients, share_record_with_users, resolve_each, email_set, user_of,
}
use papertrail.Records.Shares.Recipients.Answers.{Returned, share_record_with_users-Answered}
use papertrail.Database.{World, Env}

abbrev ann : User
ann = record { pk = 1; email = text "ann@x.org" }

abbrev bob : User
bob = record { pk = 2; email = text "bob@x.org" }

abbrev receipt : Record
receipt = record {
  pk = 10;
  user = ann;
  date_added = 5;
  last_edited = 5;
  is_active = true;
  reimbursed = false;
  title = text "Lunch";
  merchant = text "Cafe";
  balance = none;
  currency = text "usd";
  products = [];
  transaction_date = none;
  expiry_date = none;
  notes = [];
  payment_method = [];
  nickname = [];
  record_type = expense_receipt;
  folder = none;
  expiry_notification_sent = false;
  plaid_transaction_id = none;
  plaid_item = none;
}

abbrev granted : RecordShare
granted = record {
  pk = 20;
  record_pk = 10;
  user = bob;
  permission = edit;
  purpose = unstated;
  include_documents = true;
  shared_by = some 1;
  created_at = 6;
  expires_at = none;
  revoked_at = none;
}

abbrev with_shares : List RecordShare → World
with_shares shares = record {
  db = record {
    users = ann ∷ bob ∷ [];
    records = receipt ∷ [];
    shares = shares;
    audit = [];
    documents = [];
    merges = [];
    accounts = [];
    packages = [];
    payments = [];
    processed = [];
    verifications = [];
    on_commit = [];
    plaid_items = [];
    folders = [];
    next_pk = 30;
  };
  refunds = [];
  sent = [];
}

abbrev env : Env
env = record {
  now = 100;
  today = 1;
  show_date = λ t. [];
  locked = λ pk. false;
  rates = [];
  fees = default_settings;
  fresh_uuid = text "new";
  checkout_key = λ pk. [];
  stripe = record {
    retrieve_checkout_session = λ id. raised not_owner;
    retrieve_payment_intent = λ id. raised not_owner;
    retrieve_charge = λ id. raised not_owner;
    create_refund = λ intent reason. ok tt;
    create_checkout_session = λ args key. raised not_owner;
  };
}

grant_access-is_visible_to_example :
    let (result, w') = grant_access env receipt bob ann default_config (with_shares []) in
    (is_ok result ≡ true) × (is_visible_to 100 2 w'.db.shares receipt ≡ true)
grant_access-is_visible_to_example =
    grant_access-is_visible_to env receipt bob ann default_config (with_shares []) refl
      (λ e. omega (arith, e)) refl

revoke_share-is_visible_to_example :
    let (result, w') = revoke_share env receipt ann granted (with_shares (granted ∷ [])) in
    (result ≡ ok tt) × (is_visible_to 100 2 w'.db.shares receipt ≡ false)
unfolding first exists
revoke_share-is_visible_to_example =
    revoke_share-is_visible_to env receipt ann granted (with_shares (granted ∷ [])) refl
      (λ e. omega (arith, e)) (refl, tt) refl

grant_access-PairsUnique_example :
    PairsUnique
      (grant_access env receipt bob ann default_config (with_shares (granted ∷ []))).1.db.shares
unfolding exists
grant_access-PairsUnique_example =
    grant_access-PairsUnique env receipt bob ann default_config (with_shares (granted ∷ []))
      (refl, tt)

-- Bob has an account, Carl has none.
share_record_with_users-Answered_example :
    Returned
      (λ (shares, unknown) w'.
        let sees = λ (u : User).
          text_eq (lower u.email) (text "bob@x.org")
          && is_visible_to 100 u.pk w'.db.shares receipt in
        (exists sees (bob ∷ []) || exists (text_eq (text "bob@x.org")) unknown) ≡ true)
      (share_record_with_users env receipt ann
        (text " Bob@x.org" ∷ text "carl@x.org" ∷ [])
        default_config
        none
        (with_shares []))
unfolding resolve_recipients exists resolve_each email_set lower strip text_eq user_of
share_record_with_users-Answered_example =
    share_record_with_users-Answered env receipt ann default_config refl refl
      (text " Bob@x.org" ∷ text "carl@x.org" ∷ []) (text "bob@x.org") (with_shares []) refl refl

abbrev bank : Record
bank = record receipt { pk = 11; title = text "CAFE 12"; plaid_transaction_id = some (text "tx") }

abbrev scanned : World
scanned = record {
  db = record (with_shares []).db {
    records = bank ∷ receipt ∷ [];
    documents = record { pk = 40; associated_record = some 10 } ∷ [];
  };
  refunds = [];
  sent = [];
}

undo_merge-merge_document_into_plaid_example :
    let w' = (merge_document_into_plaid env 11 10 none scanned).1 in
    let (result, w'') = undo_merge env 30 w' in
    (result ≡ ok (some (deactivated receipt))) × (w''.db.records ≡ bank ∷ receipt ∷ [])
unfolding find_record first exists
undo_merge-merge_document_into_plaid_example =
    undo_merge-merge_document_into_plaid env env bank receipt none scanned refl refl refl refl refl
      (λ e. omega (arith, e)) refl
      (
        ((λ e. refl), (λ e. absurd (omega (arith, e)))),
        (((λ e. absurd (omega (arith, e))), (λ e. refl)), tt),
      )

undo_merge-documents_example :
    let w' = (merge_document_into_plaid env 11 10 none scanned).1 in
    (w'.db.documents ≡ update (belongs_to 10) (moved_to 11) scanned.db.documents)
    × ((undo_merge env 30 w').1.db.documents ≡ scanned.db.documents)
unfolding find_record first exists filter contains
undo_merge-documents_example =
    undo_merge-documents env env bank receipt none scanned refl refl refl refl refl
      (λ e. omega (arith, e)) refl refl (refl, tt)

bulk_toggle_archive_toggles_example :
    let (result, w') = bulk_toggle_archive env (10 ∷ 11 ∷ []) ann true scanned in
    let n = length (filter (is_selected (10 ∷ 11 ∷ []) ann true) (bank ∷ receipt ∷ [])) in
    (result ≡ ok n)
    × (w'.db.records
        ≡ update (is_selected (10 ∷ 11 ∷ []) ann true) (set_active false) (bank ∷ receipt ∷ []))
    × (length w'.db.audit ≡ n + 0)
unfolding contains
bulk_toggle_archive_toggles_example =
    bulk_toggle_archive_toggles env (10 ∷ 11 ∷ []) ann true scanned refl (refl, (refl, tt))
