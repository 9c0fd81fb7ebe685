-- ===== src/Reimbursements/Package/Permits.antt =====
-- Who may pay and who may delete a package, and what a deletion does (reimbursements/models.py).
use papertrail.Base.{
  ◌≡◌, ◌↔◌, ◌⊎◌, ap, true, false, none, some, is_some, ◌==◌, arith, ok, inl, inr, Bool-cases,
  Option, Option-cases, update, is_ok,
}
use papertrail.Database.{Db, World, Env}
use papertrail.Records.Model.{User}
use papertrail.Reimbursements.Model.{Package, is_paid, is_deleted, package_is_expired}
use papertrail.Reimbursements.Access.{revoke_package_access}
use papertrail.Reimbursements.Package.{
  can_delete, delete_package, payout_account_id, can_be_paid_by, is_user,
}
use papertrail.Reimbursements.Settling.Frame.{revoke_package_access-SameRest}

abbrev pub MayPay : Env → Package → Option User → Db → Type 0
MayPay env p payer d =
    (is_user p.creator payer ≡ false)
    × (is_deleted p ≡ false)
    × (package_is_expired env.now p ≡ false)
    × (is_paid p.status ≡ false)
    × (is_some (payout_account_id p d) ≡ true)

-- Someone may pay a package exactly if it is not their own, is not deleted, expired or paid, and
-- its creator has an account that can receive payouts.
pub can_be_paid_by_iff :
    (env : Env) (p : Package) (payer : Option User) (d : Db)
    → (can_be_paid_by env p payer d ≡ none) ↔ MayPay env p payer d
unfolding can_be_paid_by
can_be_paid_by_iff env p payer d =
    (λ h. (ground arith, ground arith, ground arith, ground arith, ground arith), λ h. ground arith)

deleted_packages :
    (env : Env) (p : Package) (w : World)
    → (revoke_package_access env p w).1.db.packages ≡ w.db.packages
deleted_packages env p w = ap (λ d. d.packages) (revoke_package_access-SameRest env p w).0

-- Deleting never raises, and ends in one of two ways: it returns true for a user who may delete the
-- package, and the package has the present time as its deletion; or it returns false, because the
-- user may not or because revoking the recipient's access raised, and no package has changed.
pub delete_package_cases :
    (env : Env) (p : Package) (user : User) (w : World)
    → let (result, w') = delete_package env p user w in
      ((result ≡ ok true)
        × (can_delete p user ≡ true)
        × (w'.db.packages
            ≡ update
                (λ q. q.pk == p.pk)
                (λ q. record q { deleted_at = some env.now })
                w.db.packages))
      ⊎ ((result ≡ ok false)
          × ((can_delete p user ≡ false) ⊎ (is_ok (revoke_package_access env p w).0 ≡ false))
          × (w'.db.packages ≡ w.db.packages))
unfolding delete_package
delete_package_cases env p user w = elim (Bool-cases (can_delete p user)) [
  | inl e ↦ elim (Bool-cases (is_ok (revoke_package_access env p w).0)) [
    | inl t ↦ inl (ground arith, e, ground (arith, deleted_packages env p w))
    | inr t ↦ inr (ground arith, inr t, ground (arith, deleted_packages env p w))
  ]
  | inr e ↦ inr (ground arith, inl e, ground arith)
]

-- A user may delete a package exactly if it is not deleted and the user is its creator, or it is
-- paid and the user is its recipient.
pub can_delete_iff :
    (p : Package) (user : User)
    → (can_delete p user ≡ true) ↔ (
        (is_deleted p ≡ false)
        × ((user.pk ≡ p.creator.pk)
            ⊎ ((is_paid p.status ≡ true)
                × ((r : User) × (p.recipient ≡ some r) × (user.pk ≡ r.pk)))))
unfolding can_delete is_user
can_delete_iff p user = elim (Option-cases p.recipient) [
  | inl e ↦ (
    λ h. (ground arith, inl (ground arith)),
    λ (alive, who). elim who [ inl own ↦ ground arith | inr (done, (r, er, same)) ↦ ground arith ],
  )
  | inr (r, e) ↦ (
    λ h. (
      ground arith,
      elim (Bool-cases (user.pk == p.creator.pk)) [
        | inl own ↦ inl (ground arith)
        | inr other ↦ inr (ground arith, (r, e, ground arith))
      ],
    ),
    λ (alive, who). elim who [
      | inl own ↦ ground arith
      | inr (done, (other, er, same)) ↦ ground arith
    ],
  )
]
