-- ===== src/Reimbursements/Writes/Handlers.antt =====
-- Each method of the settlement pipeline keeps what the writes keep (reimbursements/webhooks.py,
-- models.py, services.py).
use papertrail.Base.{
  ℕ, refl, Option, none, some, Result, ok, raised, Keeps, Keeps-pure, keeps_rules,
}
use papertrail.Database.{Db, World, Env, M, atomic, modify_db, gets_db}
use papertrail.Records.Model.{User, Record, RecordShare}
use papertrail.Records.Shares.{
  ShareConfig, grant_access, get_or_create, grant_existing, log_share_action, insert_share,
  save_share, revoke_share,
}
use papertrail.Reimbursements.Model.{Package}
use papertrail.Reimbursements.Access.{
  grant_one, grant_to, grant_package_access, revoke_found, revoke_one, revoke_from,
  revoke_package_access,
}
use papertrail.Reimbursements.Writes.{KeptByAccess}

module _ {P : World → Type 0} (k : KeptByAccess P) where
  open k use {by_rollback, by_share_write, by_audit}

  pub Keeps-atomic : {A : Type 0} (m : M A) → Keeps P m → Keeps P (atomic m)
  Keeps-atomic m km = record { at = λ w h. ends (m w).0 (m w).1 w h (km.at w h) }
    where
      ends :
          {A : Type 0} (r : Result A) (w' w : World)
          → P w
          → P w'
          → P
              (elim r as (λ _. Result A × World) [
                | ok a ↦ (ok a, w')
                | raised e ↦ (raised e, record w' { db = w.db })
              ]).1
      ends (ok a) w' w h h' = h'
      ends (raised e) w' w h h' = by_rollback w w' h h'

  pub Keeps-gets_db : {A : Type 0} (f : Db → A) → Keeps P (gets_db f)
  Keeps-gets_db f = record { at = λ w h. h }

  insert_share-Keeps : (s : RecordShare) → Keeps P (modify_db (insert_share s))
  insert_share-Keeps s = by_share_write (insert_share s) (λ d. refl)

  save_share-Keeps :
      (pk : ℕ) (f : RecordShare → RecordShare) → Keeps P (modify_db (save_share pk f))
  save_share-Keeps pk f = by_share_write (save_share pk f) (λ d. refl)

  get_or_create-Keeps :
      (env : Env) (r : Record) (user requester : User) (config : ShareConfig)
      (found : Option RecordShare) (pk : ℕ)
      → Keeps P (get_or_create env r user requester config found pk)
  unfolding get_or_create grant_existing log_share_action
  get_or_create-Keeps env r user requester config (some s) pk =
      search (keeps_rules, by_audit, save_share-Keeps)
  get_or_create-Keeps env r user requester config none pk =
      search (keeps_rules, by_audit, insert_share-Keeps)

  grant_access-Keeps :
      (env : Env) (r : Record) (user requester : User) (config : ShareConfig)
      → Keeps P (grant_access env r user requester config)
  unfolding grant_access
  grant_access-Keeps env r user requester config =
      search (keeps_rules, Keeps-atomic, Keeps-gets_db, get_or_create-Keeps) depth 9

  revoke_share-Keeps :
      (env : Env) (r : Record) (actor : User) (s : RecordShare)
      → Keeps P (revoke_share env r actor s)
  unfolding revoke_share
  revoke_share-Keeps env r actor s = search (keeps_rules, by_audit, save_share-Keeps)

  revoke_found-Keeps :
      (env : Env) (p : Package) (s : RecordShare) (found : Option Record)
      → Keeps P (revoke_found env p s found)
  unfolding revoke_found
  revoke_found-Keeps env p s none = Keeps-pure tt
  revoke_found-Keeps env p s (some r) = revoke_share-Keeps env r p.creator s

  revoke_one-Keeps : (env : Env) (p : Package) (s : RecordShare) → Keeps P (revoke_one env p s)
  unfolding revoke_one
  revoke_one-Keeps env p s = search (keeps_rules, Keeps-gets_db, revoke_found-Keeps)

  revoke_from-Keeps :
      (env : Env) (p : Package) (recipient : Option User) → Keeps P (revoke_from env p recipient)
  unfolding revoke_from
  revoke_from-Keeps env p none = Keeps-pure tt
  revoke_from-Keeps env p (some u) = search (keeps_rules, Keeps-gets_db, revoke_one-Keeps)

  pub revoke_package_access-Keeps :
      (env : Env) (p : Package) → Keeps P (revoke_package_access env p)
  unfolding revoke_package_access
  revoke_package_access-Keeps env p = revoke_from-Keeps env p p.recipient

  grant_one-Keeps :
      (env : Env) (p : Package) (u : User) (r : Record) → Keeps P (grant_one env p u r)
  unfolding grant_one
  grant_one-Keeps env p u r = search (keeps_rules, grant_access-Keeps)

  grant_to-Keeps :
      (env : Env) (p : Package) (recipient : Option User) → Keeps P (grant_to env p recipient)
  unfolding grant_to
  grant_to-Keeps env p none = Keeps-pure tt
  grant_to-Keeps env p (some u) = search (keeps_rules, Keeps-gets_db, grant_one-Keeps)

  pub grant_package_access-Keeps : (env : Env) (p : Package) → Keeps P (grant_package_access env p)
  unfolding grant_package_access
  grant_package_access-Keeps env p = grant_to-Keeps env p p.recipient
