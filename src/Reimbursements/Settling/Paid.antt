-- ===== src/Reimbursements/Settling/Paid.antt =====
-- Settling a package, and settling it again (`mark_as_paid` of reimbursements/models.py).
use papertrail.Base.{
  ◌≡◌, refl, ap, ◌∙◌, ℕ, Bool, true, false, ◌&&◌, Option, none, some, List, [], ◌∷◌, ◌==◌, arith,
  ok, Result, Text, or_text, swallow, pure, ◌>>=◌, first, first_holds, update, if◌then◌else◌,
}
use papertrail.Database.{Db, World, Env, atomic}
use papertrail.Records.Model.{User}
use papertrail.Reimbursements.Model.{Package, Status, queued, opened, paid, is_open, is_paid}
use papertrail.Reimbursements.Access.{revoke_package_access}
use papertrail.Reimbursements.Package.{
  claim, save_package, settled, save_reimbursed, converted_total, insert_receipt, pay_row,
  mark_as_paid,
}
use papertrail.Reimbursements.Settling.Frame.{rest_of, revoke_package_access-SameRest}

-- The database of a settled package, up to the revoked shares.
abbrev pub paid_db : Env → Package → Option User → Text → Db → Db
paid_db env p payer currency d =
    insert_receipt env p payer (converted_total env p currency d) currency
      (save_reimbursed p true (save_package p.pk (settled payer env.now) d))

pub claim_holds :
    (env : Env) (pk : ℕ) (in_state : Status → Bool) (d : Db) {row : Package}
    → claim env pk in_state d ≡ some row
    → (row.pk ≡ pk) × (in_state row.status ≡ true)
unfolding claim
claim_holds env pk in_state d {row} e =
    ground (arith, first_holds (λ p. p.pk == pk && in_state p.status) d.packages {x = row})

-- The rest of `mark_as_paid`, once the row has been looked for.
pay_found : Env → Package → Option User → Text → Option Package → World → Result (Unit {0}) × World
pay_found env p payer currency found w =
    (atomic (pay_row env p payer currency (converted_total env p currency w.db) found) >>= λ done.
    if done then swallow (revoke_package_access env p) else pure tt)
      w

mark_as_paid-pay_found :
    (env : Env) (p : Package) (payer : Option User) (currency : Text) (w : World)
    → mark_as_paid env p payer currency w
      ≡ pay_found env p payer (or_text currency p.currency) (claim env p.pk is_open w.db) w
unfolding mark_as_paid pay_found
mark_as_paid-pay_found env p payer currency w = refl

abbrev Settles : Env → Package → Option User → Text → World → Result (Unit {0}) × World → Type 0
Settles env p payer currency w (result, w') =
    (result ≡ ok tt)
    × (rest_of w'.db ≡ rest_of (paid_db env p payer currency w.db))
    × (w'.refunds ≡ w.refunds)

pay_found-some :
    (env : Env) (p row : Package) (payer : Option User) (currency : Text) (w : World)
    → row.pk ≡ p.pk
    → Settles env p payer currency w (pay_found env p payer currency (some row) w)
unfolding pay_found pay_row
pay_found-some env p row payer currency w e =
    let after : World = record w { db = paid_db env p payer currency w.db } in
    let (same, refunds) = revoke_package_access-SameRest env p after in rw e (refl, same, refunds)

-- If the package's row is open and no other transaction has locked it, settling succeeds; it sets
-- the row to paid with the payer and the time, marks the package's active records as reimbursed
-- and adds the payer's receipt, and beyond that only revokes shares and writes the audit trail.
pub mark_as_paid_settles :
    (env : Env) (p row : Package) (payer : Option User) (currency : Text) (w : World)
    → claim env p.pk is_open w.db ≡ some row
    → let (result, w') = mark_as_paid env p payer currency w in
      (result ≡ ok tt)
      × (rest_of w'.db ≡ rest_of (paid_db env p payer (or_text currency p.currency) w.db))
      × (w'.refunds ≡ w.refunds)
mark_as_paid_settles env p row payer currency w e =
    rw (mark_as_paid-pay_found env p payer currency w, e)
      (pay_found-some env p row payer (or_text currency p.currency) w
        (claim_holds env p.pk is_open w.db e).0)

-- A locked row, or a package without an open row, is left alone, and so is everything else.
pub mark_as_paid_skips :
    (env : Env) (p : Package) (payer : Option User) (currency : Text) (w : World)
    → claim env p.pk is_open w.db ≡ none
    → mark_as_paid env p payer currency w ≡ (ok tt, w)
unfolding mark_as_paid
mark_as_paid_skips env p payer currency w e = ground arith

none_open :
    (pk : ℕ) (payer : Option User) (now : ℕ) (rows : List Package)
    → first
        (λ p. p.pk == pk && is_open p.status)
        (update (λ p. p.pk == pk) (settled payer now) rows)
      ≡ none
unfolding first update
none_open pk payer now [] = refl
none_open pk payer now (p ∷ rows) = ground (arith, none_open pk payer now rows)

insert_receipt_packages :
    (env : Env) (p : Package) (payer : Option User) (amount : _) (currency : Text) (d : Db)
    → (insert_receipt env p payer amount currency d).packages ≡ d.packages
unfolding insert_receipt
insert_receipt_packages env p none amount currency d = refl
insert_receipt_packages env p (some u) amount currency d = refl

pub settled_packages :
    (env : Env) (p row : Package) (payer : Option User) (currency : Text) (w : World)
    → claim env p.pk is_open w.db ≡ some row
    → (mark_as_paid env p payer currency w).1.db.packages
      ≡ update (λ q. q.pk == p.pk) (settled payer env.now) w.db.packages
settled_packages env p row payer currency w e =
    ap (λ d. d.packages) (mark_as_paid_settles env p row payer currency w e).1
    ∙ insert_receipt_packages env p payer _ _ _

claim_packages :
    (env : Env) (pk : ℕ) (in_state : Status → Bool) (d d' : Db)
    → first (λ p. p.pk == pk && in_state p.status) d'.packages ≡ none
    → claim env pk in_state d' ≡ none
unfolding claim
claim_packages env pk in_state d d' e = ground arith

-- A package that has just been settled is not settled again: a second call, with whatever payer
-- and currency and at whatever time, succeeds and changes nothing.
pub mark_as_paid_once :
    (env later : Env) (p row : Package) (payer other : Option User) (currency money : Text)
    (w : World)
    → claim env p.pk is_open w.db ≡ some row
    → let w' = (mark_as_paid env p payer currency w).1 in
      mark_as_paid later p other money w' ≡ (ok tt, w')
mark_as_paid_once env later p row payer other currency money w e =
    mark_as_paid_skips later p other money (mark_as_paid env p payer currency w).1 (
      claim_packages later p.pk is_open w.db _ (
        rw (settled_packages env p row payer currency w e)
          (none_open p.pk payer env.now w.db.packages)))

pub open_unpaid : (status : Status) → is_open status ≡ true → is_paid status ≡ false
open_unpaid queued h = refl
open_unpaid opened h = refl
open_unpaid paid h = cc
