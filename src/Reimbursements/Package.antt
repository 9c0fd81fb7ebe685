-- ===== src/Reimbursements/Package.antt =====
-- The workflow of a package (`ReimbursementPackage` of reimbursements/models.py). A method is given
-- the package as it was read, and finds the row again under a lock.
pub mod Permits
use papertrail.Base.{
  ℕ, ◌+◌, Bool, true, false, not, ◌&&◌, ◌||◌, Option, none, some, is_some, List, [], ◌∷◌, ◌++◌,
  ◌==◌, if◌then◌else◌, Text, text, text_eq, is_blank, or_text, lower, contains_text, contains, pure,
  ◌>>=◌, ◌>>◌, attempt, swallow, first, filter, update,
}
use papertrail.Database.{Db, World, Env, M, atomic, modify_db, gets_db}
use papertrail.Money.Decimal.{Decimal, of_ℕ, is_zero}
use papertrail.Money.Currencies.{format_currency}
use papertrail.Money.ExchangeRates.{convert_batch}
use papertrail.Records.Model.{User, Record, RecordType, expense_receipt}
use papertrail.Reimbursements.Model.{
  Status, queued, opened, paid, is_queued, is_open, is_paid, Package, is_deleted,
  package_is_expired, StripeAccount, account_is_active,
}
use papertrail.Reimbursements.Access.{active_records, grant_package_access, revoke_package_access}

-- `select_for_update(skip_locked=True).filter(pk=..., status=...).first()`: a row that another
-- transaction has locked is passed over.
unfoldable pub claim : Env → ℕ → (Status → Bool) → Db → Option Package
claim env pk in_state d =
    if env.locked pk then none else first (λ p. p.pk == pk && in_state p.status) d.packages

abbrev pub save_package : ℕ → (Package → Package) → Db → Db
save_package pk f d = record d { packages = update (λ p. p.pk == pk) f d.packages }

-- The columns that a settlement and its reversal save.
abbrev pub settled : Option User → ℕ → Package → Package
settled payer now p = record p { status = paid; paid_by = payer; paid_at = some now }

abbrev pub reopened : Package → Package
reopened p = record p { status = opened; paid_by = none; paid_at = none }

-- `records.filter(is_active=True).update(reimbursed=...)`.
abbrev pub save_reimbursed : Package → Bool → Db → Db
save_reimbursed p b d = record d {
  records =
      update (λ r. contains r.pk p.records && r.is_active) (λ r. record r { reimbursed = b })
        d.records;
}

activate_row : Option Package → M Bool
activate_row none = pure false
activate_row (some locked) = do
  modify_db (save_package locked.pk λ p. record p { status = opened })
  pure true

unfoldable pub activate : Env → Package → M Bool
unfolding activate_row
activate env p = atomic do activate_row (← gets_db (claim env p.pk is_queued))

unfoldable pub is_user : User → Option User → Bool
is_user u none = false
is_user u (some v) = u.pk == v.pk

unfoldable pub can_delete : Package → User → Bool
unfolding is_user
can_delete p user =
    not (is_deleted p)
    && (user.pk == p.creator.pk || (is_paid p.status && is_user user p.recipient))

-- `delete_package`: the grants are revoked first, and a failure there leaves the package.
unfoldable pub delete_package : Env → Package → User → M Bool
delete_package env p user = if not (can_delete p user) then pure false else do
  revoked ← attempt (revoke_package_access env p)
  if not revoked then pure false else do
    modify_db (save_package p.pk λ row. record row { deleted_at = some env.now })
    pure true

priced : Record → List (Decimal × Text) → List (Decimal × Text)
priced r rest = elim (r.balance) [ none ↦ rest | some b ↦ (b, r.currency) ∷ rest ]

-- `get_active_record_items`, from the query set.
unfoldable pub active_record_items : List Record → List (Decimal × Text)
unfolding priced
active_record_items [] = []
active_record_items (r ∷ rs) = priced r (active_record_items rs)

-- `checkout.converted_total`; with no items it is the sum of none, zero.
unfoldable pub converted_total : Env → Package → Text → Db → Decimal
converted_total env p to_currency d =
    convert_batch (active_record_items (active_records p d)) (or_text to_currency p.currency)
      env.rates

receipt_notes : Env → Package → Decimal → Text → Text
receipt_notes env p converted currency =
    text "Reimbursement package '"
    ++ (p.title
        ++ (text "' paid to "
            ++ (p.creator.email
                ++ (text ". Amount: "
                    ++ (format_currency (some converted) currency
                        ++ (text ". Date: "
                            ++ (env.show_date env.now
                                ++ (text ". (package " ++ (p.uuid ++ text ")")))))))))

unfoldable pub receipt_title : Package → Text
receipt_title p = text "Reimbursement: " ++ p.title

-- The record that `Record.objects.create` makes for a payer with an account.
unfoldable pub receipt : Env → Package → User → Decimal → Text → ℕ → Record
unfolding receipt_notes receipt_title
receipt env p payer converted currency pk = record {
  pk = pk;
  user = payer;
  date_added = env.today;
  last_edited = env.now;
  is_active = true;
  reimbursed = false;
  title = receipt_title p;
  merchant = p.creator.email;
  balance = some converted;
  currency = currency;
  products = [];
  transaction_date = some env.today;
  expiry_date = none;
  notes = receipt_notes env p converted currency;
  payment_method = text "Verity reimbursement transfer";
  nickname = [];
  record_type = expense_receipt;
  folder = none;
  expiry_notification_sent = false;
  plaid_transaction_id = none;
  plaid_item = none;
}

unfoldable pub insert_receipt : Env → Package → Option User → Decimal → Text → Db → Db
insert_receipt env p none converted currency d = d
insert_receipt env p (some payer) converted currency d = record d {
  records = receipt env p payer converted currency d.next_pk ∷ d.records;
  next_pk = d.next_pk + 1;
}

unfoldable pub pay_row : Env → Package → Option User → Text → Decimal → Option Package → M Bool
unfolding insert_receipt
pay_row env p payer currency converted none = pure false
pay_row env p payer currency converted (some locked) = do
  modify_db (save_package locked.pk (settled payer env.now))
  modify_db (save_reimbursed p true)
  modify_db (insert_receipt env p payer converted currency)
  pure true

unfoldable pub mark_as_paid : Env → Package → Option User → Text → M (Unit {0})
unfolding pay_row
mark_as_paid env p payer payer_currency = do
  let record_currency = or_text payer_currency p.currency
  converted ← gets_db (converted_total env p record_currency)
  done ←
      atomic do pay_row env p payer record_currency converted (← gets_db (claim env p.pk is_open))
  if done then swallow (revoke_package_access env p) else pure tt

is_expense : RecordType → Bool
is_expense expense_receipt = true
is_expense _ = false

-- The payer's receipts of the package: its uuid is in the notes, or title and merchant agree.
unfoldable pub is_receipt_of : Package → User → Record → Bool
unfolding is_expense receipt_title
is_receipt_of p payer r =
    (r.user.pk == payer.pk && is_expense r.record_type)
    && (contains_text (lower r.notes) (lower p.uuid)
        || (text_eq r.title (receipt_title p) && text_eq r.merchant p.creator.email))

unfoldable pub mark_receipts : Package → Option User → Db → Db
mark_receipts p none d = d
mark_receipts p (some payer) d = record d {
  records =
      update (is_receipt_of p payer) (λ r. record r { notes = r.notes ++ text " [REFUNDED]" })
        d.records;
}

unfoldable pub reopen_row : Package → Option Package → M Bool
unfolding mark_receipts
reopen_row p none = pure false
reopen_row p (some locked) = do
  modify_db (save_package locked.pk reopened)
  modify_db (save_reimbursed p false)
  modify_db (mark_receipts p locked.paid_by)
  pure true

unfoldable pub mark_as_refunded : Env → Package → M (Unit {0})
unfolding reopen_row
mark_as_refunded env p = do
  done ← atomic do reopen_row p (← gets_db (claim env p.pk is_paid))
  if done then swallow (grant_package_access env p) else pure tt

active_account : Option StripeAccount → Option Text
active_account none = none
active_account (some a) = if account_is_active a then some a.stripe_account_id else none

unfoldable pub payout_account_id : Package → Db → Option Text
unfolding active_account
payout_account_id p d = active_account (first (λ a. a.user == p.creator.pk) d.accounts)

-- The messages of `can_be_paid_by`, in the order of its tests.
pub data Refusal : Type 0 where
  own_package unavailable expired already_paid no_payouts : Refusal

-- A payer without an account is `none`.
unfoldable pub can_be_paid_by : Env → Package → Option User → Db → Option Refusal
unfolding is_user
can_be_paid_by env p payer d =
    if is_user p.creator payer
    then some own_package
    else if is_deleted p
    then some unavailable
    else if package_is_expired env.now p
    then some expired
    else if is_paid p.status
    then some already_paid
    else if is_some (payout_account_id p d)
    then none
    else some no_payouts
