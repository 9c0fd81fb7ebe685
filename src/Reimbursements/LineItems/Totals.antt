-- ===== src/Reimbursements/LineItems/Totals.antt =====
-- The totals of a checkout's line items (`build_line_items` of reimbursements/checkout.py).
use papertrail.Base.{
  ◌≡◌, refl, ℕ, ◌+◌, ◌<◌, Option, none, some, List, [], ◌∷◌, ◌++◌, arith, Text, Result, ok, inl,
  inr, Bool-cases, Option-cases, All, All-append, AllOk, AllOk-bind, AllOk-any, pos, leb_ℤ,
}
use papertrail.Database.{Db, Env}
use papertrail.Money.Decimal.{Decimal, is_nonpositive}
use papertrail.Money.Currencies.{to_stripe_amount}
use papertrail.Money.ExchangeRates.{Rates, convert_strict}
use papertrail.Records.Model.{Record}
use papertrail.Reimbursements.Model.{Package, LineItem}
use papertrail.Reimbursements.Access.{active_records}
use papertrail.Reimbursements.Package.{active_record_items}
use papertrail.Reimbursements.LineItems.{
  CheckoutItems, line_of, line_item_of_balance, line_item_for, append_line, collect_lines,
  strict_converted_total, single_line, fallback_line_item, or_fallback, build_line_items,
}

-- What the payer is charged for the lines.
abbrev pub charged : List LineItem → ℕ
charged [] = 0
charged (l ∷ ls) = l.unit_amount + charged ls

abbrev IsLineIn : Text → LineItem → Type 0
IsLineIn currency l = (0 < l.unit_amount) × (l.currency ≡ currency)

abbrev pub AddsUp : Text → CheckoutItems → Type 0
AddsUp currency items =
    (items.total_cents ≡ charged items.line_items) × All (IsLineIn currency) items.line_items

AllLines : Text → Option (LineItem × Decimal) → Type 0
AllLines currency none = Unit
AllLines currency (some (l, amount)) = IsLineIn currency l

line_of-AllLines :
    (currency name description : Text) (amount : Decimal)
    → AllLines currency (line_of currency name description amount)
unfolding line_of AllLines
line_of-AllLines currency name description amount =
    elim (Bool-cases (leb_ℤ (to_stripe_amount amount currency) (pos 0))) [
      | inl e ↦ ground arith
      | inr e ↦ ground arith
    ]

charged-append :
    (ls : List LineItem) (l : LineItem) → charged (ls ++ l ∷ []) ≡ charged ls + l.unit_amount
charged-append [] l = omega arith
charged-append (k ∷ ls) l = omega (arith, charged-append ls l)

append_line-AddsUp :
    (currency : Text) (items : CheckoutItems) (item : Option (LineItem × Decimal))
    → AllLines currency item
    → AddsUp currency items
    → AddsUp currency (append_line items item)
unfolding append_line AllLines
append_line-AddsUp currency items none l h = h
append_line-AddsUp currency items (some (line, amount)) l (total, lines) = (
  rw (charged-append items.line_items line, total) refl,
  All-append (IsLineIn currency) items.line_items (line ∷ []) lines (l, tt),
)

line_item_of_balance-AllLines :
    (r : Record) (b : Decimal) (currency : Text) (rates : Rates)
    → AllOk (AllLines currency) (line_item_of_balance r b currency rates)
unfolding line_item_of_balance AllLines
line_item_of_balance-AllLines r b currency rates = elim (Bool-cases (is_nonpositive b)) [
  | inl e ↦ rw e tt
  | inr e ↦ rw e (
      AllOk-bind (λ a. Unit {0}) (AllLines currency) (convert_strict b r.currency currency rates) _
        (AllOk-any (convert_strict b r.currency currency rates))
        λ amount done. line_of-AllLines currency _ _ amount)
]

line_item_for-AllLines :
    (r : Record) (currency : Text) (rates : Rates)
    → AllOk (AllLines currency) (line_item_for r currency rates)
unfolding line_item_for AllLines line_item_of_balance
line_item_for-AllLines r currency rates = elim (Option-cases r.balance) [
  | inl e ↦ rw e tt
  | inr (b, e) ↦ rw e (line_item_of_balance-AllLines r b currency rates)
]

collect_lines-AddsUp :
    (rs : List Record) (currency : Text) (rates : Rates) (items : CheckoutItems)
    → AddsUp currency items
    → AllOk (AddsUp currency) (collect_lines rs currency rates items)
unfolding collect_lines
collect_lines-AddsUp [] currency rates items h = h
collect_lines-AddsUp (r ∷ rs) currency rates items h =
    AllOk-bind (AllLines currency) (AddsUp currency) (line_item_for r currency rates) _
      (line_item_for-AllLines r currency rates)
      λ item l.
        collect_lines-AddsUp rs currency rates (append_line items item)
          (append_line-AddsUp currency items item l h)

single_line-AddsUp :
    (currency : Text) (item : Option (LineItem × Decimal))
    → AllLines currency item
    → AddsUp currency (single_line item)
unfolding single_line AllLines
single_line-AddsUp currency none l = (refl, tt)
single_line-AddsUp currency (some (line, amount)) l = (omega arith, (l, tt))

fallback_line_item-AddsUp :
    (env : Env) (p : Package) (currency : Text) (d : Db)
    → AllOk (AddsUp currency) (fallback_line_item env p currency d)
unfolding fallback_line_item
fallback_line_item-AddsUp env p currency d =
    let total =
      strict_converted_total (active_record_items (active_records p d)) currency env.rates in
    AllOk-bind (λ a. Unit {0}) (AddsUp currency) total _ (AllOk-any total)
      λ amount done. single_line-AddsUp currency _ (line_of-AllLines currency _ [] amount)

or_fallback-AddsUp :
    (currency : Text) (fallback : Result CheckoutItems) (items : CheckoutItems)
    → AllOk (AddsUp currency) fallback
    → AddsUp currency items
    → AllOk (AddsUp currency) (or_fallback fallback items)
unfolding or_fallback
or_fallback-AddsUp currency fallback items f h =
    elim (items.line_items)
      as (λ ls. AllOk (AddsUp currency) (elim ls [ [] ↦ fallback | l ∷ rest ↦ ok items ])) [
        | [] ↦ f
        | l ∷ rest ↦ h
      ]

-- The items of a checkout, whichever way they are built, add up: the total in the smallest unit is
-- the sum of the lines' amounts, and every line is in the payer's currency and greater than zero.
pub build_line_items-AddsUp :
    (env : Env) (p : Package) (currency : Text) (d : Db)
    → AllOk (AddsUp currency) (build_line_items env p currency d)
unfolding build_line_items
build_line_items-AddsUp env p currency d =
    AllOk-bind (AddsUp currency) (AddsUp currency)
      (collect_lines (active_records p d) currency env.rates _) _
      (collect_lines-AddsUp (active_records p d) currency env.rates _ (refl, tt))
      λ items h.
        or_fallback-AddsUp currency (fallback_line_item env p currency d) items
          (fallback_line_item-AddsUp env p currency d) h
