-- ===== src/Reimbursements/Tests/Packages.antt =====
-- Packages that are settled, opened again and deleted.
use papertrail.Base.{◌≡◌, refl, some, [], ◌∷◌, text, ok, first}
use papertrail.Reimbursements.Package.{claim, mark_as_paid, mark_as_refunded}
use papertrail.Reimbursements.Settling.Paid.{mark_as_paid_once}
use papertrail.Reimbursements.Settling.Reopened.{mark_as_refunded-mark_as_paid}
use papertrail.Reimbursements.Tests.{owner, payer, trip, world, env}

mark_as_paid_once_example :
    let w' = (mark_as_paid env trip (some payer) (text "usd") world).1 in
    mark_as_paid env trip (some owner) (text "eur") w' ≡ (ok tt, w')
unfolding claim first
mark_as_paid_once_example =
    mark_as_paid_once env env trip trip (some payer) (some owner) (text "usd") (text "eur") world
      refl

mark_as_refunded-mark_as_paid_example :
    (mark_as_refunded env trip
      (mark_as_paid env trip (some payer) (text "usd") world).1).1.db.packages
    ≡ trip ∷ []
unfolding claim first
mark_as_refunded-mark_as_paid_example =
    mark_as_refunded-mark_as_paid env env trip trip (some payer) (text "usd") world refl refl
      ((λ e. refl), tt)
