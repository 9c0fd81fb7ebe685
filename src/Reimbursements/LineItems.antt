-- ===== src/Reimbursements/LineItems.antt =====
-- The line items and totals of a Stripe Checkout Session (reimbursements/checkout.py).
pub mod Totals
use papertrail.Base.{
  ℕ, ◌+◌, Bool, true, false, not, ◌&&◌, Option, none, some, List, [], ◌∷◌, ◌++◌, if◌then◌else◌,
  Text, text, is_blank, or_text, ℤ, pos, pos_part, leb_ℤ, Result, ok, raised,
}
use papertrail.Base.Raising.{◌>>=◌}
use papertrail.Database.{Db, Env}
use papertrail.Money.Decimal.{Decimal, of_ℕ, add, fraction, is_nonpositive}
use papertrail.Money.Currencies.{to_stripe_amount}
use papertrail.Money.ExchangeRates.{Rates, convert_strict}
use papertrail.Records.Model.{Record}
use papertrail.Reimbursements.Model.{Package, LineItem}
use papertrail.Reimbursements.Access.{active_records}
use papertrail.Reimbursements.Package.{active_record_items}

pub record CheckoutItems : Type 0 where
  pub line_items : List LineItem
  pub total_cents : ℕ
  pub total_amount : Decimal

-- `CheckoutItems()`.
abbrev pub no_items : CheckoutItems
no_items = record { line_items = []; total_cents = 0; total_amount = fraction 0 2 }

merchant_line : Text → Text
merchant_line merchant = if is_blank merchant then [] else text "Merchant: " ++ merchant

-- A line of a positive amount, with the amount before it was converted to the smallest unit.
unfoldable pub line_of : Text → Text → Text → Decimal → Option (LineItem × Decimal)
line_of currency name description converted =
    let amount = to_stripe_amount converted currency in
    if leb_ℤ amount (pos 0)
    then none
    else some (
      (record {
        currency = currency;
        name = name;
        description = description;
        unit_amount = pos_part amount;
      }),
      converted,
    )

unfoldable pub line_item_of_balance :
    Record → Decimal → Text → Rates → Result (Option (LineItem × Decimal))
unfolding merchant_line
line_item_of_balance r balance currency rates = if is_nonpositive balance then ok none else do
  converted ← convert_strict balance r.currency currency rates
  ok (line_of currency (or_text r.title (text "Expense Item")) (merchant_line r.merchant) converted)

-- `_line_item_for`.
unfoldable pub line_item_for : Record → Text → Rates → Result (Option (LineItem × Decimal))
line_item_for r currency rates = elim (r.balance) [
  | none ↦ ok none
  | some b ↦ line_item_of_balance r b currency rates
]

unfoldable pub append_line : CheckoutItems → Option (LineItem × Decimal) → CheckoutItems
append_line items none = items
append_line items (some (line, converted)) = record {
  line_items = items.line_items ++ line ∷ [];
  total_cents = items.total_cents + line.unit_amount;
  total_amount = add items.total_amount converted;
}

-- The loop over the package's active records.
unfoldable pub collect_lines : List Record → Text → Rates → CheckoutItems → Result CheckoutItems
collect_lines [] currency rates items = ok items
collect_lines (r ∷ rs) currency rates items = do
  item ← line_item_for r currency rates
  collect_lines rs currency rates (append_line items item)

unfoldable pub strict_total : List (Decimal × Text) → Text → Rates → Decimal → Result Decimal
strict_total [] to_currency rates total = ok total
strict_total ((amount, currency) ∷ rest) to_currency rates total = do
  converted ← convert_strict amount currency to_currency rates
  strict_total rest to_currency rates (add total converted)

-- `_strict_converted_total`.
unfoldable pub strict_converted_total : List (Decimal × Text) → Text → Rates → Result Decimal
unfolding strict_total
strict_converted_total [] to_currency rates = ok (fraction 0 2)
strict_converted_total (item ∷ items) to_currency rates =
    strict_total (item ∷ items) to_currency rates (of_ℕ 0)

unfoldable pub single_line : Option (LineItem × Decimal) → CheckoutItems
single_line none = no_items
single_line (some (line, total)) = record {
  line_items = line ∷ [];
  total_cents = line.unit_amount;
  total_amount = total;
}

-- `_fallback_line_item`: one line for the whole package.
unfoldable pub fallback_line_item : Env → Package → Text → Db → Result CheckoutItems
unfolding single_line
fallback_line_item env p currency d = do
  total ← strict_converted_total (active_record_items (active_records p d)) currency env.rates
  ok (single_line (line_of currency (or_text p.title (text "Reimbursement")) [] total))

unfoldable pub or_fallback : Result CheckoutItems → CheckoutItems → Result CheckoutItems
or_fallback fallback items = elim (items.line_items) [ [] ↦ fallback | line ∷ lines ↦ ok items ]

-- `build_line_items`.
unfoldable pub build_line_items : Env → Package → Text → Db → Result CheckoutItems
unfolding or_fallback
build_line_items env p currency d = do
  items ←
      collect_lines (active_records p d) currency env.rates
        (record { line_items = []; total_cents = 0; total_amount = of_ℕ 0 })
  or_fallback (fallback_line_item env p currency d) items
