-- ===== src/Reimbursements/Creation.antt =====
-- A new package (`create_reimbursement_package` of reimbursements/services.py, `PackageDraft` and
-- `create_for` of reimbursements/models.py).
pub mod Grants
pub mod Opens
use papertrail.Base.{
  ℕ, ◌+◌, ◌*◌, Bool, true, false, ◌&&◌, Option, none, some, is_some, List, [], ◌∷◌, map, ◌==◌,
  if◌then◌else◌, Text, text, text_eq, is_blank, or_text, lower, contains, pure, ◌>>=◌, ◌>>◌, first,
  filter,
}
use papertrail.Database.{Db, Env, M, atomic, modify_db, gets_db}
use papertrail.Records.Model.{User, Record}
use papertrail.Reimbursements.Model.{Status, opened, queued, Package}
use papertrail.Reimbursements.Access.{grant_package_access}
use papertrail.Reimbursements.Package.{is_user}

pub record PackageDraft : Type 0 where
  pub creator : User
  pub recipient : Option User
  pub title : Text
  pub records : List Record
  pub days_valid : ℕ
  pub recipient_email : Text
  pub status : Status

-- `resolve_currency` of a draft without a currency: that of the creator's settings, if there are any.
unfoldable pub resolve_currency : Option Text → Text
resolve_currency none = text "usd"
resolve_currency (some default_currency) = default_currency

-- The row that `create_for` makes; `records.set(...)` links the records by their keys.
abbrev pub drafted : Env → Option Text → PackageDraft → ℕ → Package
drafted env default_currency draft pk = record {
  pk = pk;
  uuid = env.fresh_uuid;
  creator = draft.creator;
  recipient = draft.recipient;
  recipient_email = draft.recipient_email;
  title = draft.title;
  currency = resolve_currency default_currency;
  records = map (λ r. r.pk) draft.records;
  status = draft.status;
  created_at = env.now;
  expires_at = some (env.now + draft.days_valid * 86400);
  paid_by = none;
  paid_at = none;
  deleted_at = none;
}

abbrev pub insert_package : Package → Db → Db
insert_package p d = record d { packages = p ∷ d.packages; next_pk = d.next_pk + 1 }

unfoldable pub create_for : Env → Option Text → PackageDraft → M Package
create_for env default_currency draft = atomic do
  p ← gets_db (λ d. drafted env default_currency draft d.next_pk)
  modify_db (insert_package p)
  pure p

-- The user-facing errors.
pub data CreationOutcome : Type 0 where
  created : Package → CreationOutcome
  to_yourself no_records : CreationOutcome

-- `Record.objects.filter(id__in=record_ids, user=creator, is_active=True)`.
unfoldable pub own_active_records : List ℕ → User → Db → List Record
own_active_records record_ids creator d =
    filter (λ r. contains r.pk record_ids && (r.user.pk == creator.pk && r.is_active)) d.records

-- `filter(email__iexact=...).first()`.
unfoldable pub user_by_email : Text → Db → Option User
user_by_email email d = first (λ u. text_eq (lower u.email) (lower email)) d.users

unfoldable pub initial_status : Option User → Status
initial_status none = queued
initial_status (some u) = opened

-- The package of records that were found.
unfoldable pub create_with :
    Env → Option Text → User → Option User → Text → Text → ℕ → List Record → M CreationOutcome
create_with env default_currency creator recipient recipient_email title days_valid [] =
    pure no_records
create_with env default_currency creator recipient recipient_email title days_valid (r ∷ rs) = do
  p ← create_for env default_currency (record {
    creator = creator;
    recipient = recipient;
    title = title;
    records = r ∷ rs;
    days_valid = days_valid;
    recipient_email = recipient_email;
    status = initial_status recipient;
  })
  grant_package_access env p
  pure (created p)

-- `create_reimbursement_package`; `default_currency` is that of the creator's settings.
unfoldable pub create_reimbursement_package :
    Env → Option Text → User → Text → List ℕ → Text → ℕ → M CreationOutcome
unfolding create_with
create_reimbursement_package env default_currency creator recipient_email record_ids title
      days_valid =
    do
      recipient ← gets_db (user_by_email recipient_email)
      if is_user creator recipient then pure to_yourself else do
        records ← gets_db (own_active_records record_ids creator)
        create_with env default_currency creator recipient recipient_email title days_valid records
