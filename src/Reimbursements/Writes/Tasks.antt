-- ===== src/Reimbursements/Writes/Tasks.antt =====
-- The tasks that synchronise payments keep what the writes keep (reimbursements/tasks.py).
use papertrail.Base.{ℕ, Option, none, some, Text, Keeps, Keeps-pure, Keeps-swallow, keeps_rules}
use papertrail.Database.{World, Env}
use papertrail.Reimbursements.Model.{Package, Payment}
use papertrail.Reimbursements.Tasks.{
  sync_payment_from_stripe, sync_found, sync_open, sync_payment_status, reconcile_payment,
  reconcile_one, reconcile_package, reconcile_pending_payments,
}
use papertrail.Reimbursements.Writes.{KeptByWrites}
use papertrail.Reimbursements.Writes.Handlers.{Keeps-gets_db}
use papertrail.Reimbursements.Writes.Settlement.{apply_paid_session-Keeps}

module _ {P : World → Type 0} (k : KeptByWrites P) where
  sync_from_stripe-Keeps :
      (env : Env) (payment : Payment) (p : Package) (source : Text)
      → Keeps P (sync_payment_from_stripe env payment p source)
  unfolding sync_payment_from_stripe
  sync_from_stripe-Keeps env payment p source = search (keeps_rules, apply_paid_session-Keeps k)

  sync_found-Keeps :
      (env : Env) (p : Package) (found : Option Payment) → Keeps P (sync_found env p found)
  unfolding sync_found
  sync_found-Keeps env p none = Keeps-pure tt
  sync_found-Keeps env p (some payment) = search (keeps_rules, sync_from_stripe-Keeps)

  sync_open-Keeps :
      (env : Env) (payment_id : ℕ) (found : Option Package)
      → Keeps P (sync_open env payment_id found)
  unfolding sync_open
  sync_open-Keeps env payment_id none = Keeps-pure tt
  sync_open-Keeps env payment_id (some p) =
      search (keeps_rules, Keeps-gets_db k.access, sync_found-Keeps)

  pub sync_payment_status-Keeps :
      (env : Env) (package_uuid : Text) (payment_id : ℕ)
      → Keeps P (sync_payment_status env package_uuid payment_id)
  unfolding sync_payment_status
  sync_payment_status-Keeps env package_uuid payment_id =
      search (keeps_rules, Keeps-gets_db k.access, sync_open-Keeps)

  reconcile_payment-Keeps :
      (env : Env) (found : Option Package) (payment : Payment)
      → Keeps P (reconcile_payment env found payment)
  unfolding reconcile_payment
  reconcile_payment-Keeps env none payment = Keeps-pure tt
  reconcile_payment-Keeps env (some p) payment =
      Keeps-swallow (sync_found env p (some payment)) (sync_found-Keeps env p (some payment))

  reconcile_one-Keeps : (env : Env) (found : Option Payment) → Keeps P (reconcile_one env found)
  unfolding reconcile_one
  reconcile_one-Keeps env none = Keeps-pure tt
  reconcile_one-Keeps env (some payment) =
      search (keeps_rules, Keeps-gets_db k.access, reconcile_payment-Keeps)

  reconcile_package-Keeps : (env : Env) (pk : ℕ) → Keeps P (reconcile_package env pk)
  unfolding reconcile_package
  reconcile_package-Keeps env pk = search (keeps_rules, Keeps-gets_db k.access, reconcile_one-Keeps)

  pub reconcile_pending_payments-Keeps : (env : Env) → Keeps P (reconcile_pending_payments env)
  unfolding reconcile_pending_payments
  reconcile_pending_payments-Keeps env =
      search (keeps_rules, Keeps-gets_db k.access, reconcile_package-Keeps)
