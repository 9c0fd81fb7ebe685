-- ===== src/Reimbursements/Tasks.antt =====
-- reimbursements/tasks.py: the tasks that reconcile pending payments with Stripe.
use papertrail.Base.{
  ℕ, Bool, false, not, ◌&&◌, Option, none, some, List, ◌==◌, if◌then◌else◌, Text, text, text_eq,
  pure, ◌>>=◌, ◌>>◌, lift, swallow, first, filter, exists, latest, for_each, map,
}
use papertrail.Database.{Db, Env, M, gets_db}
use papertrail.Reimbursements.Model.{Package, Payment, is_open}
use papertrail.Reimbursements.Settlement.{apply_paid_session}
use papertrail.Reimbursements.Lookup.{package_of}

-- `_sync_payment_from_stripe`.
unfoldable pub sync_payment_from_stripe : Env → Payment → Package → Text → M Bool
sync_payment_from_stripe env payment p source = do
  session ← lift (env.stripe.retrieve_checkout_session payment.stripe_checkout_session_id)
  if not (text_eq session.payment_status (text "paid"))
      then pure false
      else apply_paid_session env payment p session source

unfoldable pub sync_found : Env → Package → Option Payment → M (Unit {0})
sync_found env p none = pure tt
sync_found env p (some payment) =
    sync_payment_from_stripe env payment p (text "payment_synced") >> pure tt

unfoldable pub sync_open : Env → ℕ → Option Package → M (Unit {0})
unfolding sync_found
sync_open env payment_id none = pure tt
sync_open env payment_id (some p) = if not (is_open p.status) then pure tt else do
  found ← gets_db (λ d. first (λ x. x.pk == payment_id && x.package_pk == p.pk) d.payments)
  sync_found env p found

-- `sync_payment_status`.
unfoldable pub sync_payment_status : Env → Text → ℕ → M (Unit {0})
unfolding sync_open
sync_payment_status env package_uuid payment_id = do
  found ← gets_db (λ d. first (λ p. text_eq p.uuid package_uuid) d.packages)
  sync_open env payment_id found

abbrev pub is_pending : ℕ → Payment → Bool
is_pending package_pk payment = payment.package_pk == package_pk && not payment.is_completed

-- The keys of the open packages that have a payment which is not completed.
unfoldable pub pending_packages : Db → List ℕ
pending_packages d =
    map (λ p. p.pk)
      (filter (λ p. is_open p.status && exists (is_pending p.pk) d.payments) d.packages)

unfoldable pub reconcile_payment : Env → Option Package → Payment → M (Unit {0})
reconcile_payment env none payment = pure tt
reconcile_payment env (some p) payment = swallow (sync_found env p (some payment))

unfoldable pub reconcile_one : Env → Option Payment → M (Unit {0})
unfolding reconcile_payment sync_found
reconcile_one env none = pure tt
reconcile_one env (some payment) = do
  p ← gets_db (λ d. package_of d payment)
  reconcile_payment env p payment

unfoldable pub reconcile_package : Env → ℕ → M (Unit {0})
unfolding reconcile_one
reconcile_package env package_pk = do
  payment ← gets_db (λ d. latest (λ x. x.created_at) (is_pending package_pk) d.payments)
  reconcile_one env payment

-- `reconcile_pending_payments_task`: a payment that fails is skipped.
unfoldable pub reconcile_pending_payments : Env → M (Unit {0})
unfolding reconcile_package
reconcile_pending_payments env = do
  package_ids ← gets_db pending_packages
  for_each package_ids (reconcile_package env)
