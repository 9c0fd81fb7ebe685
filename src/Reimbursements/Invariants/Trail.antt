-- ===== src/Reimbursements/Invariants/Trail.antt =====
-- The audit trail (`AuditLog` of records/models.py) only grows.
use papertrail.Base.{◌≡◌, refl, ap, List, [], ◌∷◌, ◌++◌}
use papertrail.Database.{audit_entry, World, Env, create_audit_log}
use papertrail.Records.Model.{AuditLog}
use papertrail.Reimbursements.Webhooks.{Event, process_stripe_event}
use papertrail.Reimbursements.Tasks.{reconcile_pending_payments}
use papertrail.Reimbursements.Writes.{KeptByWrites}
use papertrail.Reimbursements.Writes.Events.{process_stripe_event-Keeps}
use papertrail.Reimbursements.Writes.Tasks.{reconcile_pending_payments-Keeps}

-- New entries stand before the old ones, which are as they were.
abbrev pub Extends : List AuditLog → World → Type 0
Extends trail w = (added : List AuditLog) × (w.db.audit ≡ added ++ trail)

Extends-KeptByWrites : (trail : List AuditLog) → KeptByWrites (Extends trail)
unfolding create_audit_log
Extends-KeptByWrites trail = record {
  access = record {
    by_rollback = λ w w' h h'. h;
    by_share_write = λ f share. record { at = λ w h. rw (ap (λ d. d.audit) (share w.db)) h };
    by_audit = λ env user action r details. record {
      at = λ w (added, e). (
        audit_entry env user action r details ∷ added,
        ap (audit_entry env user action r details ∷◌) e,
      );
    };
  };
  by_side_write = λ f side. record { at = λ w h. rw ((side w.db).2) h };
  by_settlement = λ pk payer now. record { at = λ w h. h };
  by_reopening = λ pk. record { at = λ w h. h };
  by_payment_write = λ pk f same. record { at = λ w h. h };
  by_refund = λ intent reason w h. h;
}

-- Processing an event and reconciling the pending payments never remove or change an entry of the
-- audit trail: the trail afterwards is the one before, with new entries in front.
pub process_stripe_event-Extends :
    (env : Env) (event : Event) (w : World)
    → Extends w.db.audit (process_stripe_event env event w).1
      × Extends w.db.audit (reconcile_pending_payments env w).1
process_stripe_event-Extends env event w = (
  (process_stripe_event-Keeps (Extends-KeptByWrites w.db.audit) env event).at w ([], refl),
  (reconcile_pending_payments-Keeps (Extends-KeptByWrites w.db.audit) env).at w ([], refl),
)
