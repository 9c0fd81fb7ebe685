-- ===== src/Records/Services.antt =====
-- records/services.py: archiving records, one by one and in bulk.
pub mod Bulk
use papertrail.Base.{
  ℕ, Bool, true, false, not, ◌&&◌, Option, none, some, List, [], ◌∷◌, ◌++◌, ◌==◌, ltb,
  if◌then◌else◌, map, length, contains, Error, bulk_limit_exceeded, Result, ok, raised, pure, raise,
  ◌>>=◌, ◌>>◌, filter, update,
}
use papertrail.Database.{Db, Env, M, atomic, modify_db, gets_db, create_audit_log, audit_entry}
use papertrail.Records.Model.{
  User, Record, AuditLog, AuditAction, archive as archive_action, unarchive as unarchive_action,
  soft_delete as soft_delete_action,
}

abbrev pub bulk_limit : ℕ
bulk_limit = 200

abbrev save_row : ℕ → (Record → Record) → Db → Db
save_row pk f d = record d { records = update (λ r. r.pk == pk) f d.records }

-- `archive_record`.
unfoldable pub archive_record : Env → User → Record → M (Unit {0})
archive_record env user r = atomic do
  modify_db (save_row r.pk λ row. record row { is_active = false })
  create_audit_log env (some user.pk) archive_action (some r.pk) []

-- `unarchive_record`.
unfoldable pub unarchive_record : Env → User → Record → M (Unit {0})
unarchive_record env user r = atomic do
  modify_db (save_row r.pk λ row. record row { is_active = true })
  create_audit_log env (some user.pk) unarchive_action (some r.pk) []

-- `soft_delete_record`, with `Record.delete`.
unfoldable pub soft_delete_record : Env → User → Record → M (Unit {0})
soft_delete_record env user r = atomic do
  modify_db (save_row r.pk λ row. record row { is_active = false; last_edited = env.now })
  create_audit_log env (some user.pk) soft_delete_action (some r.pk) []

abbrev pub same : Bool → Bool → Bool
same a b = if a then b else not b

-- The rows that a bulk operation takes: the user's own, of the given keys, in the state to leave.
abbrev pub is_selected : List ℕ → User → Bool → Record → Bool
is_selected ids user archive r =
    contains r.pk ids && (r.user.pk == user.pk && same r.is_active archive)

abbrev pub set_active : Bool → Record → Record
set_active b r = record r { is_active = b }

abbrev toggle_action : Bool → AuditAction
toggle_action archive = if archive then archive_action else unarchive_action

abbrev pub toggle_entry : Env → User → Bool → Record → AuditLog
toggle_entry env user archive r =
    audit_entry env (some user.pk) (toggle_action archive) (some r.pk) []

-- The update by the keys that were found, and the entries of `bulk_create`.
abbrev pub toggled : Env → User → Bool → List Record → Db → Db
toggled env user archive found d = record d {
  records =
      update (λ r. contains r.pk (map (λ x. x.pk) found)) (set_active (not archive)) d.records;
  audit = map (toggle_entry env user archive) found ++ d.audit;
}

unfoldable pub toggle_found : Env → User → Bool → List Record → M ℕ
toggle_found env user archive [] = pure 0
toggle_found env user archive (r ∷ rs) = do
  modify_db (toggled env user archive (r ∷ rs))
  pure (length (r ∷ rs))

-- `bulk_toggle_archive`.
unfoldable pub bulk_toggle_archive : Env → List ℕ → User → Bool → M ℕ
unfolding toggle_found
bulk_toggle_archive env record_ids user archive =
    if ltb bulk_limit (length record_ids)
    then raise bulk_limit_exceeded
    else atomic do
      found ← gets_db (λ d. filter (is_selected record_ids user archive) d.records)
      toggle_found env user archive found
