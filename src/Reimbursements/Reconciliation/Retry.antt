-- ===== src/Reimbursements/Reconciliation/Retry.antt =====
-- A run that is retried flags nothing twice (`_flag` of reimbursements/reconciliation.py).
use papertrail.Base.{
  ◌≡◌, refl, ap, sym, ◌∙◌, ℕ, true, Option, none, List, [], ◌∷◌, arith, text_eq, text_eq_refl, ok,
  exists, first, for_each, Keeps-for_each, All, All-map, inl, inr, Bool-cases, keeps_rules,
}
use papertrail.Database.{Db, World, Env, create_audit_log, audit_entry}
use papertrail.Records.Model.{update_record}
use papertrail.Reimbursements.Lookup.{package_of, uuid_of}
use papertrail.Reimbursements.Reconciliation.{
  creator_pk, Drift, as_audit_details, check_completed_payments, check_paid_packages,
  check_unpaid_packages, has_detail, flags, flag, all_drifts, run_daily_reconciliation,
}
use papertrail.Reimbursements.Reconciliation.Drifts.{
  flag_result, for_each-flag, run_found, run-run_found, run_result,
}
use papertrail.Reimbursements.Writes.Handlers.{Keeps-gets_db}
use papertrail.Reimbursements.Settling.Frame.{rest_of, SameRest, SameRest-KeptByAccess}

abbrev Flagged : Env → World → Drift → Type 0
Flagged env w drift = exists (flags env drift) w.db.audit ≡ true

flags-entry :
    (env : Env) (drift : Drift) (user : Option ℕ)
    → flags env drift (audit_entry env user update_record none (as_audit_details drift)) ≡ true
unfolding flags has_detail as_audit_details exists text_eq
flags-entry env drift user =
    ground (arith, text_eq_refl drift.kind, text_eq_refl drift.package_uuid)

flag-Flagged : (env : Env) (drift : Drift) (w : World) → Flagged env (flag env drift w).1 drift
unfolding flag create_audit_log exists
flag-Flagged env drift w = elim (Bool-cases (exists (flags env drift) w.db.audit)) [
  | inl e ↦ ground arith
  | inr e ↦ ground (
    arith,
    flags-entry env drift
        (creator_pk (first (λ p. text_eq p.uuid drift.package_uuid) w.db.packages)),
  )
]

flag_keeps :
    (env : Env) (drift other : Drift) (w : World)
    → Flagged env w other
    → Flagged env (flag env drift w).1 other
unfolding flag create_audit_log exists
flag_keeps env drift other w h = ground arith

for_each_keeps :
    (env : Env) (ds : List Drift) (other : Drift) (w : World)
    → Flagged env w other
    → Flagged env (for_each ds (flag env) w).1 other
for_each_keeps env ds other w h =
    (Keeps-for_each {P = λ w. Flagged env w other} ds (flag env)
        λ d. record { at = λ w h. flag_keeps env d other w h }).at
      w h

flag_skips :
    (env : Env) (drift : Drift) (w : World) → Flagged env w drift → flag env drift w ≡ (ok tt, w)
unfolding flag
flag_skips env drift w h = ground arith

for_each-cons :
    (env : Env) (d : Drift) (ds : List Drift) (w : World)
    → for_each (d ∷ ds) (flag env) w ≡ for_each ds (flag env) (flag env d w).1
unfolding for_each
for_each-cons env d ds w = ground (arith, flag_result env d w)

for_each-Flagged :
    (env : Env) (ds : List Drift) (w : World) → All (Flagged env (for_each ds (flag env) w).1) ds
for_each-Flagged env [] w = tt
for_each-Flagged env (d ∷ ds) w = (
  rw (for_each-cons env d ds w) (for_each_keeps env ds d (flag env d w).1 (flag-Flagged env d w)),
  All-map ds (λ x h. rw (for_each-cons env d ds w) h) (for_each-Flagged env ds (flag env d w).1),
)

for_each_skips :
    (env : Env) (ds : List Drift) (w : World)
    → All (Flagged env w) ds
    → for_each ds (flag env) w ≡ (ok tt, w)
for_each_skips env [] w h = unfold for_each in refl
for_each_skips env (d ∷ ds) w (hd, h) =
    rw (for_each-cons env d ds w, flag_skips env d w hd) (for_each_skips env ds w h)

flags-SameRest : (env : Env) (ds : List Drift) (w : World) → SameRest w (for_each ds (flag env) w).1
unfolding flag
flags-SameRest env ds w =
    (Keeps-for_each {P = SameRest w} ds (flag env) λ d. search (
      keeps_rules,
      Keeps-gets_db (SameRest-KeptByAccess w),
      (SameRest-KeptByAccess w).by_audit,
    )).at
      w (refl, refl)

all_drifts-rest_of : (env : Env) (d : Db) → all_drifts env d ≡ all_drifts env (rest_of d)
unfolding all_drifts check_completed_payments check_paid_packages check_unpaid_packages uuid_of
    package_of
all_drifts-rest_of env d = refl

run_found_ok :
    (env : Env) (ds : List Drift) (w : World)
    → run_found env (ok ds) w ≡ (ok ds, (for_each ds (flag env) w).1)
unfolding run_found
run_found_ok env ds w = ground (arith, for_each-flag env ds w)

-- A run that succeeded and is repeated in the same environment reports the same drifts and
-- changes nothing: no drift is flagged a second time.
pub run_daily_reconciliation_retry :
    (env : Env) (ds : List Drift) (w : World)
    → (run_daily_reconciliation env w).0 ≡ ok ds
    → let w' = (run_daily_reconciliation env w).1 in run_daily_reconciliation env w' ≡ (ok ds, w')
run_daily_reconciliation_retry env ds w h =
    let v = (for_each ds (flag env) w).1 in
    let found = sym (run_result env w) ∙ h in
    let again =
      all_drifts-rest_of env v.db
      ∙ (ap (all_drifts env) (flags-SameRest env ds w).0
          ∙ (sym (all_drifts-rest_of env w.db) ∙ found)) in
    rw
      (
        run-run_found env w,
        found,
        run_found_ok env ds w,
        run-run_found env v,
        again,
        run_found_ok env ds v,
        for_each_skips env ds v (for_each-Flagged env ds w),
      )
      refl
