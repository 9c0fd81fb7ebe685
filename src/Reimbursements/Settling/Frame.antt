-- ===== src/Reimbursements/Settling/Frame.antt =====
-- Granting and revoking a package's access touches the shares, the audit trail and the next key,
-- and nothing else (reimbursements/services.py).
use papertrail.Base.{◌≡◌, refl, ap, ◌∙◌, []}
use papertrail.Database.{Db, World, Env, create_audit_log}
use papertrail.Reimbursements.Model.{Package}
use papertrail.Reimbursements.Access.{grant_package_access, revoke_package_access}
use papertrail.Reimbursements.Writes.{KeptByAccess}
use papertrail.Reimbursements.Writes.Handlers.{
  revoke_package_access-Keeps, grant_package_access-Keeps,
}

-- The database without the tables that access is recorded in.
abbrev pub rest_of : Db → Db
rest_of d = record d { shares = []; audit = []; next_pk = 0 }

abbrev pub SameRest : World → World → Type 0
SameRest w w' = (rest_of w'.db ≡ rest_of w.db) × (w'.refunds ≡ w.refunds)

pub SameRest-KeptByAccess : (w : World) → KeptByAccess (SameRest w)
unfolding create_audit_log
SameRest-KeptByAccess v = record {
  by_rollback = λ w w' h h'. (h.0, h'.1);
  by_share_write = λ f share. record { at = λ w (h, k). (ap rest_of (share w.db) ∙ h, k) };
  by_audit = λ env user action r details. record { at = λ w h. h };
}

pub revoke_package_access-SameRest :
    (env : Env) (p : Package) (w : World) → SameRest w (revoke_package_access env p w).1
revoke_package_access-SameRest env p w =
    (revoke_package_access-Keeps (SameRest-KeptByAccess w) env p).at w (refl, refl)

pub grant_package_access-SameRest :
    (env : Env) (p : Package) (w : World) → SameRest w (grant_package_access env p w).1
grant_package_access-SameRest env p w =
    (grant_package_access-Keeps (SameRest-KeptByAccess w) env p).at w (refl, refl)
