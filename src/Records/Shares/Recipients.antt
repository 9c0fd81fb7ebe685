-- ===== src/Records/Shares/Recipients.antt =====
-- Sharing a record with the accounts behind mail addresses (`resolve_recipients` and
-- `share_record_with_users` of records/shares.py). The notification of a recipient cannot raise and
-- is not modelled: the shares that are returned are those that it is sent for.
pub mod Resolved
pub mod Answers
use papertrail.Base.{
  Bool, ◌||◌, Option, none, some, List, [], ◌∷◌, ◌==◌, if◌then◌else◌, Text, text_eq, is_blank,
  lower, strip, self_share, pure, raise, ◌>>=◌, ◌>>◌, exists,
}
use papertrail.Database.{Db, Env, M, gets_db}
use papertrail.Records.Model.{User, Record, RecordShare}
use papertrail.Records.Shares.{ShareConfig, grant_access}

unfoldable pub add_email : Text → List Text → List Text
add_email email found =
    if is_blank email || exists (text_eq email) found then found else email ∷ found

-- `email_set`, in one of its orders; which one Python takes is not specified.
unfoldable pub email_set : List Text → List Text
unfolding add_email
email_set [] = []
email_set (e ∷ es) = add_email (lower (strip e)) (email_set es)

-- `users_by_email.get(email)`: of accounts with the same address, the last one.
unfoldable pub user_of : Text → List User → Option User
user_of email [] = none
user_of email (u ∷ us) =
    let rest = user_of email us in
    elim rest [ some v ↦ some v | none ↦ if text_eq (lower u.email) email then some u else none ]

abbrev pub add_user : Text → Option User → List User × List Text → List User × List Text
add_user email none (recipients, unknown) = (recipients, email ∷ unknown)
add_user email (some u) (recipients, unknown) = (u ∷ recipients, unknown)

-- The loop of `resolve_recipients`.
unfoldable pub resolve_each : List User → List Text → List User × List Text
resolve_each users [] = ([], [])
resolve_each users (e ∷ es) = add_user e (user_of e users) (resolve_each users es)

unfoldable pub resolve_recipients : List Text → Db → List User × List Text
resolve_recipients emails d = resolve_each d.users (email_set emails)

unfoldable pub validate_recipients : List User → Record → M (Unit {0})
validate_recipients [] r = pure tt
validate_recipients (u ∷ us) r =
    let rest = validate_recipients us r in if u.pk == r.user.pk then raise self_share else rest

abbrev pub add_created : RecordShare × Bool → List RecordShare → List RecordShare
add_created (s, created) shares = if created then s ∷ shares else shares

-- `_grant_and_notify_shares`.
unfoldable pub grant_and_notify_shares :
    Env → List User → Record → User → ShareConfig → M (List RecordShare)
grant_and_notify_shares env [] r owner config = pure []
grant_and_notify_shares env (u ∷ us) r owner config = do
  granted ← grant_access env r u owner config
  rest ← grant_and_notify_shares env us r owner config
  pure (add_created granted rest)

unfoldable pub share_with :
    Env → Record → User → ShareConfig → List User × List Text → M (List RecordShare × List Text)
share_with env r owner config (recipients, unknown) = do
  validate_recipients recipients r
  shares ← grant_and_notify_shares env recipients r owner config
  pure (shares, unknown)

unfoldable pub share_record_with_users :
    Env
    → Record
    → User
    → List Text
    → ShareConfig
    → Option (List User)
    → M (List RecordShare × List Text)
unfolding share_with
share_record_with_users env r owner emails config none = do
  found ← gets_db (resolve_recipients emails)
  share_with env r owner config found
share_record_with_users env r owner emails config (some recipients) =
    share_with env r owner config (recipients, [])
