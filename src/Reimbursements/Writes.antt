-- ===== src/Reimbursements/Writes.antt =====
-- The writes by which Stripe's events change the world. A property that every one of them keeps is
-- kept by the whole processing of an event (reimbursements/webhooks.py, tasks.py).
pub mod Handlers
pub mod Settlement
pub mod Events
pub mod Tasks
use papertrail.Base.{◌≡◌, ℕ, Option, Text, Keeps}
use papertrail.Database.{Db, World, Env, modify_db, create_audit_log}
use papertrail.Records.Model.{User, AuditAction, Details}
use papertrail.Reimbursements.Model.{Payment}
use papertrail.Reimbursements.Package.{save_package, settled, reopened}
use papertrail.Reimbursements.Payment.{save_payment, add_refund}

-- A write that leaves packages, payments and the audit trail alone.
abbrev pub IsSideWrite : (Db → Db) → Type 0
IsSideWrite f =
    (d : Db)
    → ((f d).packages ≡ d.packages) × ((f d).payments ≡ d.payments) × ((f d).audit ≡ d.audit)

-- A write of a payment's state and intent.
abbrev pub IsPaymentWrite : (Payment → Payment) → Type 0
IsPaymentWrite f =
    (p : Payment)
    → f p ≡ record p {
      is_completed = (f p).is_completed;
      stripe_payment_intent_id = (f p).stripe_payment_intent_id;
    }

-- A write of the table of shares.
abbrev pub IsShareWrite : (Db → Db) → Type 0
IsShareWrite f = (d : Db) → f d ≡ record d { shares = (f d).shares; next_pk = (f d).next_pk }

-- What granting and revoking access does.
pub record KeptByAccess (P : World → Type 0) : Type 0 where
  -- A rollback: the database is that of the start, and what was done at Stripe stays.
  pub by_rollback : (w w' : World) → P w → P w' → P (record w' { db = w.db })
  pub by_share_write : (f : Db → Db) → IsShareWrite f → Keeps P (modify_db f)
  pub by_audit :
      (env : Env) (user : Option ℕ) (action : AuditAction) (r : Option ℕ) (details : Details)
      → Keeps P (create_audit_log env user action r details)

pub record KeptByWrites (P : World → Type 0) : Type 0 where
  pub access : KeptByAccess P
  pub by_side_write : (f : Db → Db) → IsSideWrite f → Keeps P (modify_db f)
  pub by_settlement :
      (pk : ℕ) (payer : Option User) (now : ℕ)
      → Keeps P (modify_db (save_package pk (settled payer now)))
  pub by_reopening : (pk : ℕ) → Keeps P (modify_db (save_package pk reopened))
  pub by_payment_write :
      (pk : ℕ) (f : Payment → Payment) → IsPaymentWrite f → Keeps P (modify_db (save_payment pk f))
  pub by_refund :
      (intent reason : Text) (w : World)
      → P w
      → P (record w { refunds = add_refund intent reason w.refunds })
