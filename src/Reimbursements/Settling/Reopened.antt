-- ===== src/Reimbursements/Settling/Reopened.antt =====
-- Reversing a settlement (`mark_as_refunded` of reimbursements/models.py).
use papertrail.Base.{
  ◌≡◌, ◌≢◌, Option-cases, refl, sym, ap, ◌∙◌, ℕ, false, ◌&&◌, Option, none, some, List, [], ◌∷◌,
  ◌==◌, arith, ok, Result, Text, swallow, pure, ◌>>=◌, first, update, if◌then◌else◌, inl, inr, All,
}
use papertrail.Database.{Db, World, Env, atomic}
use papertrail.Records.Model.{User}
use papertrail.Reimbursements.Model.{Package, is_open, is_paid}
use papertrail.Reimbursements.Access.{grant_package_access}
use papertrail.Reimbursements.Package.{
  claim, save_package, settled, reopened, save_reimbursed, mark_as_paid, reopen_row, mark_receipts,
  mark_as_refunded,
}
use papertrail.Reimbursements.Settling.Frame.{rest_of, grant_package_access-SameRest}
use papertrail.Reimbursements.Settling.Paid.{claim_holds, settled_packages}

-- The database of a package that is open again, up to the granted shares.
abbrev pub reopened_db : Package → Option User → Db → Db
reopened_db p payer d =
    mark_receipts p payer (save_reimbursed p false (save_package p.pk reopened d))

-- The rest of `mark_as_refunded`, once the row has been looked for.
reopen_found : Env → Package → Option Package → World → Result (Unit {0}) × World
reopen_found env p found w =
    (atomic (reopen_row p found) >>= λ done.
    if done then swallow (grant_package_access env p) else pure tt)
      w

mark_as_refunded-reopen_found :
    (env : Env) (p : Package) (w : World)
    → mark_as_refunded env p w ≡ reopen_found env p (claim env p.pk is_paid w.db) w
unfolding mark_as_refunded reopen_found
mark_as_refunded-reopen_found env p w = refl

abbrev Reopens : Package → Option User → World → Result (Unit {0}) × World → Type 0
Reopens p payer w (result, w') =
    (result ≡ ok tt)
    × (rest_of w'.db ≡ rest_of (reopened_db p payer w.db))
    × (w'.refunds ≡ w.refunds)

reopen_found-some :
    (env : Env) (p row : Package) (w : World)
    → row.pk ≡ p.pk
    → Reopens p row.paid_by w (reopen_found env p (some row) w)
unfolding reopen_found reopen_row
reopen_found-some env p row w e =
    let after : World = record w { db = reopened_db p row.paid_by w.db } in
    let (same, refunds) = grant_package_access-SameRest env p after in rw e (refl, same, refunds)

-- If the package's row is paid and not locked, the reversal succeeds; it opens the row again,
-- clears payer and time, clears the reimbursed mark of the active records and marks the receipts
-- of the payer as refunded, and beyond that only grants shares and writes the audit trail.
pub mark_as_refunded_reopens :
    (env : Env) (p row : Package) (w : World)
    → claim env p.pk is_paid w.db ≡ some row
    → let (result, w') = mark_as_refunded env p w in
      (result ≡ ok tt)
      × (rest_of w'.db ≡ rest_of (reopened_db p row.paid_by w.db))
      × (w'.refunds ≡ w.refunds)
mark_as_refunded_reopens env p row w e =
    rw (mark_as_refunded-reopen_found env p w, e)
      (reopen_found-some env p row w (claim_holds env p.pk is_paid w.db e).0)

-- A package that is not paid, or is locked, is left alone.
pub mark_as_refunded_skips :
    (env : Env) (p : Package) (w : World)
    → claim env p.pk is_paid w.db ≡ none
    → mark_as_refunded env p w ≡ (ok tt, w)
unfolding mark_as_refunded
mark_as_refunded_skips env p w e = ground arith

mark_receipts_packages :
    (p : Package) (payer : Option User) (d : Db) → (mark_receipts p payer d).packages ≡ d.packages
unfolding mark_receipts
mark_receipts_packages p none d = refl
mark_receipts_packages p (some u) d = refl

pub reopened_packages :
    (env : Env) (p row : Package) (w : World)
    → claim env p.pk is_paid w.db ≡ some row
    → (mark_as_refunded env p w).1.db.packages ≡ update (λ q. q.pk == p.pk) reopened w.db.packages
reopened_packages env p row w e =
    ap (λ d. d.packages) (mark_as_refunded_reopens env p row w e).1
    ∙ mark_receipts_packages p row.paid_by _

claim_settled :
    (pk : ℕ) (payer : Option User) (now : ℕ) (rows : List Package) (row : Package)
    → first (λ p. p.pk == pk && is_open p.status) rows ≡ some row
    → first
        (λ p. p.pk == pk && is_paid p.status)
        (update (λ p. p.pk == pk) (settled payer now) rows)
      ≢ none
unfolding first update
claim_settled pk payer now [] row e = λ h. cc
claim_settled pk payer now (p ∷ rows) row e = ground (arith, claim_settled pk payer now rows row)

restored :
    (pk : ℕ) (payer : Option User) (now : ℕ) (rows : List Package)
    → All (λ p. p.pk ≡ pk → reopened p ≡ p) rows
    → update (λ p. p.pk == pk) reopened (update (λ p. p.pk == pk) (settled payer now) rows) ≡ rows
unfolding update
restored pk payer now [] h = refl
restored pk payer now (p ∷ rows) (hp, h) = ground (arith, restored pk payer now rows)

claim_unlocked :
    (env : Env) (pk : ℕ) (in_state : _) (d : Db)
    → env.locked pk ≡ false
    → claim env pk in_state d ≡ first (λ p. p.pk == pk && in_state p.status) d.packages
unfolding claim
claim_unlocked env pk in_state d h = ground arith

open_row :
    (env : Env) (pk : ℕ) (d : Db) (row : Package)
    → claim env pk is_open d ≡ some row
    → first (λ p. p.pk == pk && is_open p.status) d.packages ≡ some row
unfolding claim
open_row env pk d row e = ground arith

-- A settlement and its reversal cancel: if the package's row is not locked either time, and its
-- rows were open without payer and time, then all packages are afterwards what they were before
-- the payment.
pub mark_as_refunded-mark_as_paid :
    (env later : Env) (p row : Package) (payer : Option User) (currency : Text) (w : World)
    → claim env p.pk is_open w.db ≡ some row
    → later.locked p.pk ≡ false
    → All (λ q. q.pk ≡ p.pk → reopened q ≡ q) w.db.packages
    → (mark_as_refunded later p (mark_as_paid env p payer currency w).1).1.db.packages
      ≡ w.db.packages
mark_as_refunded-mark_as_paid env later p row payer currency w e unlocked h =
    let w' = (mark_as_paid env p payer currency w).1 in
    let paid_rows = settled_packages env p row payer currency w e in
    elim (Option-cases (claim later p.pk is_paid w'.db)) [
      | inl none_paid ↦ absurd (
          claim_settled p.pk payer env.now w.db.packages row (open_row env p.pk w.db row e) (
            ap (first (λ q. q.pk == p.pk && is_paid q.status)) (sym paid_rows)
            ∙ (sym (claim_unlocked later p.pk is_paid w'.db unlocked) ∙ none_paid)))
      | inr (r, found) ↦
          reopened_packages later p r w' found
          ∙ (ap (update (λ q. q.pk == p.pk) reopened) paid_rows
              ∙ restored p.pk payer env.now w.db.packages h)
    ]
