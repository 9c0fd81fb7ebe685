-- ===== src/Billing/Entitlements/Limits.antt =====
-- The count of scans, which a plan may limit (billing/entitlements.py).
use papertrail.Base.{
  ◌≡◌, refl, ℕ, ◌+◌, true, ◌&&◌, List, ◌==◌, arith, if◌then◌else◌, inl, inr, Option-cases, first,
  first-update, first_holds, update,
}
use papertrail.Billing.Entitlements.{
  ScanUsage, is_usage_of, get_monthly_scan_count, get_or_create_usage, record_scan,
}

same_first :
    (user period user' period' : ℕ) (rows : List ScanUsage)
    → (user' == user && period' == period) ≡ true
    → first (is_usage_of user' period') rows ≡ first (is_usage_of user period) rows
same_first user period user' period' rows h =
    let users : user' ≡ user = ground arith in
    let periods : period' ≡ period = ground arith in rw (users, periods) refl

-- Recording a scan adds one to the count of its user and month, and to no other.
pub record_scan_counts :
    (user period user' period' : ℕ) (rows : List ScanUsage)
    → get_monthly_scan_count user' period' (record_scan user period rows)
      ≡ (if user' == user && period' == period then 1 else 0)
        + get_monthly_scan_count user' period' rows
unfolding record_scan get_or_create_usage get_monthly_scan_count is_usage_of first update
record_scan_counts user period user' period' rows =
    let q = is_usage_of user period in
    let q' = is_usage_of user' period' in
    let f : ScanUsage → ScanUsage = λ row. record row { count = row.count + 1 } in
    elim (Option-cases (first q rows)) [
      | inl e ↦ elim (Option-cases (first q' rows)) [
        | inl e' ↦ ground (arith, first-update q' q f rows (λ x. refl))
        | inr (row', e') ↦ ground (
          arith,
          first_holds q' rows {x = row'} e',
          same_first user period user' period' rows,
          first-update q' q f rows (λ x. refl),
        )
      ]
      | inr (row, e) ↦ elim (Option-cases (first q' rows)) [
        | inl e' ↦ ground (
          arith,
          first_holds q rows {x = row} e,
          same_first user period user' period' rows,
          first-update q' q f rows (λ x. refl),
        )
        | inr (row', e') ↦
            ground (arith, first_holds q' rows {x = row'} e', first-update q' q f rows (λ x. refl))
      ]
    ]
