-- ===== src/Reimbursements/Checkout/Settles.antt =====
-- From a payer's checkout to the settled package (`create_package_checkout` of
-- reimbursements/services.py, and the event of its session in reimbursements/webhooks.py).
use papertrail.Base.{
  ◌≡◌, refl, ℕ, true, false, ◌&&◌, Option, none, some, List, [], ◌∷◌, ◌==◌, arith, ok, pos, ℤ, Text,
  text, text_eq, text_eq_refl, is_blank, or_text, lower, first, first_holds, update, AllOk-ok,
}
use papertrail.Database.{Db, World, Env}
use papertrail.Records.Model.{User}
use papertrail.Reimbursements.Model.{Package, Payment, LineItem, Session, is_open, is_deleted}
use papertrail.Reimbursements.Package.{claim, settled, can_be_paid_by, payout_account_id}
use papertrail.Reimbursements.Payment.{amount_matches, save_payment}
use papertrail.Reimbursements.Lookup.{package_of}
use papertrail.Reimbursements.Webhooks.{session_completed, is_processed, process_stripe_event}
use papertrail.Reimbursements.Settling.Paid.{open_unpaid}
use papertrail.Reimbursements.Settling.Session.{process_stripe_event-session_completed}
use papertrail.Reimbursements.LineItems.{CheckoutItems, build_line_items}
use papertrail.Reimbursements.LineItems.Totals.{charged, AddsUp, build_line_items-AddsUp}
use papertrail.Reimbursements.Checkout.{
  redirect, lock_for_payment, latest_incomplete, pending_payment, insert_payment, transfer_to,
  checkout_args, save_session, create_package_checkout,
}
use papertrail.Reimbursements.Checkout.Claims.{create_package_checkout-reply}

-- The payment of an attempt, once it has its session.
abbrev opened_payment : Env → Package → Option User → Text → CheckoutItems → ℕ → Session → Payment
opened_payment env row payer currency items pk session =
    record (pending_payment env row payer currency items pk) {
      stripe_checkout_session_id = session.id;
    }

-- The world after a checkout that Stripe accepted.
abbrev opened_world : Env → Package → Option User → Text → CheckoutItems → Session → World → World
opened_world env row payer currency items session w = record w {
  db =
      save_payment w.db.next_pk (λ x. record x { stripe_checkout_session_id = session.id })
        (insert_payment (pending_payment env row payer currency items w.db.next_pk) w.db);
}

first_open :
    (pk : ℕ) (rows : List Package) {row : Package}
    → first (λ q. q.pk == pk) rows ≡ some row
    → is_open row.status ≡ true
    → first (λ q. q.pk == pk && is_open q.status) rows ≡ some row
unfolding first
first_open pk [] e h = e
first_open pk (q ∷ rows) {row} e h = ground (arith, first_open pk rows {row = row})

or_text-lower :
    (s t : Text)
    → text_eq (lower s) (lower t) ≡ true
    → text_eq (lower (or_text s t)) (lower t) ≡ true
or_text-lower [] t e = text_eq_refl (lower t)
or_text-lower (c ∷ s) t e = e

opened_payment-amount_matches :
    (env : Env) (row : Package) (payer : Option User) (currency : Text) (items : CheckoutItems)
    (pk : ℕ) (started session : Session)
    → text_eq (lower session.currency) (lower currency) ≡ true
    → session.amount_total ≡ some (pos items.total_cents)
    → amount_matches (opened_payment env row payer currency items pk started) session ≡ true
unfolding amount_matches
opened_payment-amount_matches env row payer currency items pk started session c a =
    ground (arith, or_text-lower session.currency currency c)

opened_first :
    (env : Env) (row : Package) (payer : Option User) (currency : Text) (items : CheckoutItems)
    (session : Session) (w : World)
    → first
        (λ x. text_eq x.stripe_checkout_session_id session.id)
        (opened_world env row payer currency items session w).db.payments
      ≡ some (opened_payment env row payer currency items w.db.next_pk session)
unfolding first update
opened_first env row payer currency items session w = ground (arith, text_eq_refl session.id)

create_package_checkout-opens :
    (env : Env) (p row : Package) (payer : Option User) (currency success_url cancel_url : Text)
    (items : CheckoutItems) (l : LineItem) (ls : List LineItem) (transfer : Option (ℤ × Text))
    (session : Session) (w : World)
    → can_be_paid_by env p payer w.db ≡ none
    → lock_for_payment p.pk w.db ≡ some row
    → latest_incomplete row.pk w.db ≡ none
    → build_line_items env row currency w.db ≡ ok items
    → items.line_items ≡ l ∷ ls
    → transfer_to env items.total_cents currency (payout_account_id row w.db) ≡ ok transfer
    → env.stripe.create_checkout_session
        (checkout_args p items success_url cancel_url transfer)
        (env.checkout_key w.db.next_pk)
      ≡ ok session
    → create_package_checkout env p payer currency success_url cancel_url w
      ≡ (ok (redirect session.url), opened_world env row payer currency items session w)
unfolding save_session
create_package_checkout-opens env p row payer currency success_url cancel_url items l ls transfer
      session w free e k b i t s =
    rw
      (
        create_package_checkout-reply env p row payer currency success_url cancel_url items l ls
            transfer w free e k b i t,
        s,
      )
      refl

total_charged :
    (env : Env) (row : Package) (currency : Text) (items : CheckoutItems) (d : Db)
    → build_line_items env row currency d ≡ ok items
    → items.total_cents ≡ charged items.line_items
total_charged env row currency items d b =
    (AllOk-ok (AddsUp currency) (build_line_items env row currency d) b
      (build_line_items-AddsUp env row currency d)).0

first_key :
    (k pk : ℕ) (rows : List Package) {row : Package}
    → k ≡ pk
    → first (λ q. q.pk == pk) rows ≡ some row
    → first (λ q. q.pk == k) rows ≡ some row
first_key k pk rows e h = rw e h

-- What the event finds: the row, by its own key, open and not locked.
claim_found :
    (env : Env) (pk : ℕ) (row : Package) (d : Db)
    → first (λ q. q.pk == pk) d.packages ≡ some row
    → is_open row.status ≡ true
    → env.locked pk ≡ false
    → claim env pk is_open d ≡ some row
unfolding claim
claim_found env pk row d e o u = ground (arith, first_open pk d.packages {row = row} e o)

-- The way of a payment. A payer may pay a package whose row is open, with no attempt under way;
-- its items are not empty, the fee is known, and Stripe opens a session. Then the checkout sends
-- the payer to that session. And when a new event reports, at any later time, that the session is
-- paid with the sum of the lines' amounts in the payer's currency, and the row is not locked,
-- the event is processed without an error, the package becomes paid by this payer at that time, and
-- nothing is refunded.
pub process_stripe_event-create_package_checkout :
    (env later : Env) (p row : Package) (payer : Option User)
    (currency success_url cancel_url id : Text) (items : CheckoutItems) (l : LineItem)
    (ls : List LineItem) (transfer : Option (ℤ × Text)) (started reported : Session) (w : World)
    → can_be_paid_by env p payer w.db ≡ none
    → first (λ q. q.pk == p.pk) w.db.packages ≡ some row
    → is_open row.status ≡ true
    → is_deleted row ≡ false
    → latest_incomplete row.pk w.db ≡ none
    → build_line_items env row currency w.db ≡ ok items
    → items.line_items ≡ l ∷ ls
    → transfer_to env items.total_cents currency (payout_account_id row w.db) ≡ ok transfer
    → env.stripe.create_checkout_session
        (checkout_args p items success_url cancel_url transfer)
        (env.checkout_key w.db.next_pk)
      ≡ ok started
    → is_processed id w.db ≡ false
    → reported.id ≡ started.id
    → text_eq reported.payment_status (text "paid") ≡ true
    → is_blank reported.package_uuid ≡ false
    → text_eq (lower reported.currency) (lower currency) ≡ true
    → reported.amount_total ≡ some (pos (charged items.line_items))
    → later.locked p.pk ≡ false
    → let (result, w') = create_package_checkout env p payer currency success_url cancel_url w in
      let (done, w'') =
        process_stripe_event later (record { id = id; body = session_completed reported }) w' in
      (result ≡ ok (redirect started.url))
      × (done ≡ ok tt)
      × (w''.db.packages ≡ update (λ q. q.pk == p.pk) (settled payer later.now) w.db.packages)
      × (w''.refunds ≡ w.refunds)
unfolding lock_for_payment package_of is_processed claim
process_stripe_event-create_package_checkout env later p row payer currency success_url cancel_url
      id items l ls transfer started reported w free e o alive k b i t s new same status uuid c a
      unlocked =
    let key : row.pk ≡ p.pk =
      ground (arith, first_holds (λ q. q.pk == p.pk) w.db.packages {x = row} e) in
    let row_e : first (λ q. q.pk == row.pk) w.db.packages ≡ some row =
      first_key row.pk p.pk w.db.packages key e in
    let after : World = opened_world env row payer currency items started w in
    let settled_after =
      process_stripe_event-session_completed later id reported
        (opened_payment env row payer currency items w.db.next_pk started) row row after new status
        uuid (rw same (opened_first env row payer currency items started w)) row_e
        (opened_payment-amount_matches env row payer currency items w.db.next_pk started reported c
          (rw (total_charged env row currency items w.db b) a))
        alive (open_unpaid row.status o)
        (claim_found later row.pk row after.db row_e o (rw key unlocked)) in
    rw
      (create_package_checkout-opens env p row payer currency success_url cancel_url items l ls
        transfer started w free (first_open p.pk w.db.packages e o) k b i t s)
      (refl, settled_after.0, rw⁻¹ key settled_after.1, settled_after.3)
