-- ===== src/Records/Shares.antt =====
-- records/shares.py: granting and revoking access to a record, and who sees it
-- (`RecordQuerySet.visible_to` and `RecordShare.active_for` of records/models.py).
pub mod Access
pub mod Recipients
pub mod Revocation
pub mod Uniqueness
use papertrail.Base.{
  ℕ, ◌+◌, Bool, true, false, ◌&&◌, ◌||◌, not, Option, none, some, is_some, List, [], ◌∷◌, ◌++◌,
  ◌==◌, if◌then◌else◌, Text, text, text_eq, is_blank, lower, strip, ℤ, pos, Error, not_owner,
  self_share, pure, raise, ◌>>=◌, ◌>>◌, first, filter, exists, update, for_each,
}
use papertrail.Database.{Db, World, Env, M, atomic, modify_db, gets_db, create_audit_log}
use papertrail.Records.Model.{
  User, Record, RecordShare, Permission, edit, view, Purpose, unstated, reimbursement, Json, str,
  num, bool, Details, share_is_active, share, revoke_share as revoked_action,
}

pub record ShareConfig : Type 0 where
  pub permission : Permission
  pub purpose : Purpose
  pub include_documents : Bool
  pub expires_at : Option ℕ

-- `ShareConfig()`.
abbrev pub default_config : ShareConfig
default_config = record {
  permission = edit;
  purpose = unstated;
  include_documents = true;
  expires_at = none;
}

permission_text : Permission → Text
permission_text edit = text "edit"
permission_text view = text "view"

purpose_text : Purpose → Text
purpose_text unstated = []
purpose_text reimbursement = text "reimbursement"

-- `ShareConfig.audit_details`.
unfoldable pub audit_details : ShareConfig → User → Bool → Details
unfolding permission_text purpose_text
audit_details config user reactivated =
    ("user", str user.email)
    ∷ ("user_id", num (pos user.pk))
    ∷ ("permission", str (permission_text config.permission))
    ∷ ("purpose", str (purpose_text config.purpose))
    ∷ ("include_documents", bool config.include_documents)
    ∷ (if reactivated then ("reactivated", bool true) ∷ [] else [])

unfoldable pub can_share : User → Record → Bool
can_share user r = r.user.pk == user.pk

unfoldable pub log_share_action : Env → User → Record → User → ShareConfig → Bool → M (Unit {0})
log_share_action env requester r user config reactivated =
    create_audit_log env (some requester.pk) share (some r.pk)
      (audit_details config user reactivated)

-- The row of the unique pair of a record and a user.
abbrev pub is_pair : ℕ → ℕ → RecordShare → Bool
is_pair record_pk user_pk s = s.record_pk == record_pk && s.user.pk == user_pk

abbrev pub has_pk : ℕ → RecordShare → Bool
has_pk pk s = s.pk == pk

-- The columns that `_reactivate_share` saves.
abbrev pub reactivated : ShareConfig → User → RecordShare → RecordShare
reactivated config requester s = record s {
  permission = config.permission;
  purpose = config.purpose;
  include_documents = config.include_documents;
  expires_at = config.expires_at;
  revoked_at = none;
  shared_by = some requester.pk;
}

abbrev new_share : Env → ℕ → Record → User → User → ShareConfig → RecordShare
new_share env pk r user requester config = record {
  pk = pk;
  record_pk = r.pk;
  user = user;
  permission = config.permission;
  purpose = config.purpose;
  include_documents = config.include_documents;
  shared_by = some requester.pk;
  created_at = env.now;
  expires_at = config.expires_at;
  revoked_at = none;
}

abbrev pub insert_share : RecordShare → Db → Db
insert_share s d = record d { shares = s ∷ d.shares; next_pk = d.next_pk + 1 }

abbrev pub save_share : ℕ → (RecordShare → RecordShare) → Db → Db
save_share pk f d = record d { shares = update (has_pk pk) f d.shares }

unfoldable pub grant_existing :
    Env → Record → User → User → ShareConfig → RecordShare → M (RecordShare × Bool)
grant_existing env r user requester config s =
    if share_is_active env.now s then pure (s, false) else do
      modify_db (save_share s.pk (reactivated config requester))
      log_share_action env requester r user config true
      pure (reactivated config requester s, true)

unfoldable pub get_or_create :
    Env → Record → User → User → ShareConfig → Option RecordShare → ℕ → M (RecordShare × Bool)
unfolding grant_existing
get_or_create env r user requester config (some s) pk = grant_existing env r user requester config s
get_or_create env r user requester config none pk = do
  let s = new_share env pk r user requester config
  modify_db (insert_share s)
  log_share_action env requester r user config false
  pure (s, true)

unfoldable pub grant_access : Env → Record → User → User → ShareConfig → M (RecordShare × Bool)
unfolding get_or_create log_share_action
grant_access env r user requester config =
    if not (can_share requester r)
    then raise not_owner
    else if user.pk == r.user.pk
    then raise self_share
    else atomic do
      found ← gets_db (λ d. first (is_pair r.pk user.pk) d.shares)
      pk ← gets_db (λ d. d.next_pk)
      get_or_create env r user requester config found pk

-- `revoke_share`, on a share that was read earlier.
unfoldable pub revoke_share : Env → Record → User → RecordShare → M (Unit {0})
revoke_share env r actor s =
    if not (can_share actor r)
    then raise not_owner
    else if is_some s.revoked_at
    then pure tt
    else do
      modify_db (save_share s.pk λ row. record row { revoked_at = some env.now })
      create_audit_log env (some actor.pk) revoked_action (some r.pk)
          (("user", str s.user.email) ∷ ("user_id", num (pos s.user.pk)) ∷ [])

-- The grant of a record to a user, while it is neither revoked nor expired.
abbrev pub grants : ℕ → ℕ → ℕ → RecordShare → Bool
grants now record_pk user_pk s = is_pair record_pk user_pk s && share_is_active now s

-- `RecordShare.active_for(user)`.
unfoldable pub active_for : ℕ → ℕ → List RecordShare → List RecordShare
active_for now user_pk shares = filter (λ s. s.user.pk == user_pk && share_is_active now s) shares

-- Whether `visible_to(user)` holds the record.
unfoldable pub is_visible_to : ℕ → ℕ → List RecordShare → Record → Bool
is_visible_to now user_pk shares r = r.user.pk == user_pk || exists (grants now r.pk user_pk) shares

-- Whether `shared_with_me(user)` holds the record.
unfoldable pub is_shared_with_me : ℕ → ℕ → List RecordShare → Record → Bool
is_shared_with_me now user_pk shares r = r.is_active && exists (grants now r.pk user_pk) shares

-- Whether `document_visible_records(user)` holds the record.
unfoldable pub is_document_visible : ℕ → ℕ → List RecordShare → Record → Bool
is_document_visible now user_pk shares r =
    r.is_active && exists (λ s. grants now r.pk user_pk s && s.include_documents) shares

-- `shares_for_viewer`.
unfoldable pub shares_for_viewer : Record → User → List RecordShare → List RecordShare
shares_for_viewer r viewer shares =
    if r.user.pk == viewer.pk then filter (λ s. s.record_pk == r.pk) shares else []
