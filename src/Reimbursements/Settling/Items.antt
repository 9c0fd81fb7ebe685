-- ===== src/Reimbursements/Settling/Items.antt =====
-- What settling a package does to the records (`mark_as_paid` of reimbursements/models.py).
use papertrail.Base.{
  ◌≡◌, Bool, true, false, ◌&&◌, not, some, List, [], ◌∷◌, map, Text, contains, exists, filter,
}
use papertrail.Money.Decimal.{Decimal}
use papertrail.Records.Model.{User, Record}
use papertrail.Reimbursements.Model.{Package}
use papertrail.Reimbursements.Package.{is_receipt_of}

-- An active record of the package.
abbrev pub is_item : Package → Record → Bool
is_item p r = contains r.pk p.records && r.is_active

abbrev flagged : Record → Record
flagged r = record r { reimbursed = true }

-- A record but for its flag.
abbrev pub unflagged : Record → Record
unflagged r = record r { reimbursed = false }

-- A receipt over an amount, which a later refund of the package finds as the payer's.
abbrev pub IsReceipt : Package → User → Decimal → Text → Record → Type 0
IsReceipt p payer amount currency r =
    (r.user ≡ payer)
    × (r.balance ≡ some amount)
    × (r.currency ≡ currency)
    × (r.is_active ≡ true)
    × (r.reimbursed ≡ false)
    × (is_receipt_of p payer r ≡ true)

-- The first row is new, and the others are what an earlier table has become.
abbrev pub Added : (Record → Type 0) → (List Record → Type 0) → List Record → Type 0
Added New Old [] = true ≡ false
Added New Old (r ∷ rs) = New r × Old rs

-- No active record of the package is left without the flag; records other than these are as they
-- were, and these are so but for the flag.
abbrev pub Reimbursed : Package → List Record → List Record → Type 0
Reimbursed p before after =
    (exists (λ r. is_item p r && not r.reimbursed) after ≡ false)
    × (filter (λ r. not (is_item p r)) after ≡ filter (λ r. not (is_item p r)) before)
    × (map unflagged after ≡ map unflagged before)
