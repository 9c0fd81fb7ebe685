-- ===== src/Reimbursements/Access.antt =====
-- reimbursements/services.py: the access to a package's records that its recipient is granted, and
-- that is revoked when the package is paid or deleted.
use papertrail.Base.{
  true, ◌&&◌, Option, none, some, List, ◌==◌, contains, pure, ◌>>=◌, ◌>>◌, first, filter, for_each,
}
use papertrail.Database.{Db, Env, M, gets_db}
use papertrail.Records.Model.{User, Record, RecordShare, view, reimbursement, is_reimbursement}
use papertrail.Records.Shares.{ShareConfig, grant_access, revoke_share, active_for}
use papertrail.Reimbursements.Model.{Package}

-- `package.records.all()`.
unfoldable pub package_records : Package → Db → List Record
package_records p d = filter (λ r. contains r.pk p.records) d.records

-- `package.records.filter(is_active=True)`.
unfoldable pub active_records : Package → Db → List Record
active_records p d = filter (λ r. contains r.pk p.records && r.is_active) d.records

-- The settings of the grants that a package gives.
unfoldable pub package_config : Package → ShareConfig
package_config p = record {
  permission = view;
  purpose = reimbursement;
  include_documents = true;
  expires_at = p.expires_at;
}

unfoldable pub grant_one : Env → Package → User → Record → M (Unit {0})
grant_one env p recipient r = do grant_access env r recipient p.creator (package_config p); pure tt

unfoldable pub grant_to : Env → Package → Option User → M (Unit {0})
unfolding grant_one
grant_to env p none = pure tt
grant_to env p (some recipient) = do
  records ← gets_db (active_records p)
  for_each records (grant_one env p recipient)

-- `_grant_package_access`.
unfoldable pub grant_package_access : Env → Package → M (Unit {0})
unfolding grant_to
grant_package_access env p = grant_to env p p.recipient

-- The shares that a package gave to its recipient and that are active.
unfoldable pub package_shares : Env → Package → User → Db → List RecordShare
package_shares env p recipient d =
    filter (λ s. contains s.record_pk p.records && is_reimbursement s.purpose)
      (active_for env.now recipient.pk d.shares)

unfoldable pub revoke_found : Env → Package → RecordShare → Option Record → M (Unit {0})
revoke_found env p s none = pure tt
revoke_found env p s (some r) = revoke_share env r p.creator s

-- `share.record`; the join drops a share whose record is gone.
unfoldable pub revoke_one : Env → Package → RecordShare → M (Unit {0})
unfolding revoke_found
revoke_one env p s = do
  found ← gets_db (λ d. first (λ r. r.pk == s.record_pk) d.records)
  revoke_found env p s found

unfoldable pub revoke_from : Env → Package → Option User → M (Unit {0})
unfolding revoke_one
revoke_from env p none = pure tt
revoke_from env p (some recipient) = do
  shares ← gets_db (package_shares env p recipient)
  for_each shares (revoke_one env p)

unfoldable pub revoke_package_access : Env → Package → M (Unit {0})
unfolding revoke_from
revoke_package_access env p = revoke_from env p p.recipient
