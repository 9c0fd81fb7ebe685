-- ===== src/Reimbursements/Invariants/Consistency.antt =====
-- A package's status and its columns `paid_by` and `paid_at` agree (reimbursements/models.py).
use papertrail.Base.{
  ◌||◌, is_none, ap, ◌≡◌, refl, true, Option, is_some, ◌==◌, Text, ℕ, All, All-update,
}
use papertrail.Database.{World, Env, create_audit_log}
use papertrail.Reimbursements.Model.{Package, is_paid}
use papertrail.Reimbursements.Package.{settled, reopened}
use papertrail.Reimbursements.Webhooks.{Event, process_stripe_event}
use papertrail.Reimbursements.Tasks.{sync_payment_status, reconcile_pending_payments}
use papertrail.Reimbursements.Writes.{KeptByWrites}
use papertrail.Reimbursements.Writes.Events.{process_stripe_event-Keeps}
use papertrail.Reimbursements.Writes.Tasks.{
  sync_payment_status-Keeps, reconcile_pending_payments-Keeps,
}

-- A paid package has a time of payment; any other has neither a time nor a payer.
abbrev pub IsConsistent : Package → Type 0
IsConsistent p =
    (is_paid p.status ≡ is_some p.paid_at) × ((is_paid p.status || is_none p.paid_by) ≡ true)

abbrev pub PackagesConsistent : World → Type 0
PackagesConsistent w = All IsConsistent w.db.packages

settled-IsConsistent :
    (payer : Option _) (now : ℕ) (p : Package) → IsConsistent (settled payer now p)
settled-IsConsistent payer now p = (refl, refl)

reopened-IsConsistent : (p : Package) → IsConsistent (reopened p)
reopened-IsConsistent p = (refl, refl)

PackagesConsistent-KeptByWrites : KeptByWrites PackagesConsistent
unfolding create_audit_log
PackagesConsistent-KeptByWrites = record {
  access = record {
    by_rollback = λ w w' h h'. h;
    by_share_write = λ f share. record { at = λ w h. rw (ap (λ d. d.packages) (share w.db)) h };
    by_audit = λ env user action r details. record { at = λ w h. h };
  };
  by_side_write = λ f side. record { at = λ w h. rw ((side w.db).0) h };
  by_settlement = λ pk payer now. record {
    at = λ w h.
        All-update IsConsistent (λ p. p.pk == pk) (settled payer now) w.db.packages
          (λ p _ _. settled-IsConsistent payer now p) h;
  };
  by_reopening = λ pk. record {
    at = λ w h.
        All-update IsConsistent (λ p. p.pk == pk) reopened w.db.packages
          (λ p _ _. reopened-IsConsistent p) h;
  };
  by_payment_write = λ pk f same. record { at = λ w h. h };
  by_refund = λ intent reason w h. h;
}

-- Whatever Stripe sends, and whether its processing succeeds or raises, every package's status
-- agrees with its columns paid_at and paid_by afterwards if it did so before.
pub process_stripe_event-PackagesConsistent :
    (env : Env) (event : Event) (w : World)
    → PackagesConsistent w
    → PackagesConsistent (process_stripe_event env event w).1
process_stripe_event-PackagesConsistent env event w h =
    (process_stripe_event-Keeps PackagesConsistent-KeptByWrites env event).at w h

-- The tasks that ask Stripe for payments, for one payment and for all that are pending, also leave
-- every package's status in agreement with its columns paid_at and paid_by.
pub tasks-PackagesConsistent :
    (env : Env) (uuid : Text) (payment_id : ℕ) (w : World)
    → PackagesConsistent w
    → PackagesConsistent (sync_payment_status env uuid payment_id w).1
      × PackagesConsistent (reconcile_pending_payments env w).1
tasks-PackagesConsistent env uuid payment_id w h = (
  (sync_payment_status-Keeps PackagesConsistent-KeptByWrites env uuid payment_id).at w h,
  (reconcile_pending_payments-Keeps PackagesConsistent-KeptByWrites env).at w h,
)
