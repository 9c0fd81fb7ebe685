-- ===== src/Reimbursements/Checkout/Claims.antt =====
-- The payment row by which a checkout claims its package, and what follows from it
-- (`create_package_checkout` of reimbursements/services.py).
use papertrail.Base.{
  ◌≡◌, refl, ap, ℕ, ◌+◌, ◌≤◌, ◌<◌, Bool, true, false, Option, none, some, List, [], ◌∷◌, ◌==◌,
  arith, Text, Result, ok, raised, stripe_error, rate_unavailable, inl, inr, Option-cases, ℤ, pos,
  All, map, contains, remove, latest, starts_with_append,
}
use papertrail.Database.{World, Env}
use papertrail.Money.PlatformFee.{compute}
use papertrail.Records.Model.{User}
use papertrail.Reimbursements.Model.{Package, Payment, LineItem}
use papertrail.Reimbursements.Package.{can_be_paid_by, payout_account_id}
use papertrail.Reimbursements.LineItems.{CheckoutItems, build_line_items}
use papertrail.Reimbursements.Checkout.{
  CheckoutOutcome, refused, in_flight, stripe_failed, lock_for_payment, latest_incomplete, Claim,
  claimed, stopped, pending_payment, insert_payment, claim_lines, claim_attempt, claim_after,
  claim_row, no_rates_refused, claim_checkout, transfer_to, checkout_args, save_session,
  open_session, checkout_unless, create_package_checkout, is_pending, pending_session_staleness,
  pending_session_prefix,
}

claim_lines-cons :
    (env : Env) (row : Package) (payer : Option User) (currency : Text) (items : CheckoutItems)
    (l : LineItem) (ls lines : List LineItem) (w : World)
    → lines ≡ l ∷ ls
    → let payment = pending_payment env row payer currency items w.db.next_pk in
      claim_lines env row payer currency items lines w
      ≡ (ok (claimed row payment items), record w { db = insert_payment payment w.db })
unfolding claim_lines
claim_lines-cons env row payer currency items l ls lines w e =
    ap (λ xs. claim_lines env row payer currency items xs w) e

-- A package that can be claimed: its row is open, no attempt is under way, and its items are not empty.
pub claim_checkout-claimed :
    (env : Env) (p row : Package) (payer : Option User) (currency : Text) (items : CheckoutItems)
    (l : LineItem) (ls : List LineItem) (w : World)
    → lock_for_payment p.pk w.db ≡ some row
    → latest_incomplete row.pk w.db ≡ none
    → build_line_items env row currency w.db ≡ ok items
    → items.line_items ≡ l ∷ ls
    → let payment = pending_payment env row payer currency items w.db.next_pk in
      claim_checkout env p payer currency w
      ≡ (ok (claimed row payment items), record w { db = insert_payment payment w.db })
unfolding claim_checkout claim_row claim_after claim_attempt no_rates_refused
claim_checkout-claimed env p row payer currency items l ls w e k b i =
    ground (arith, claim_lines-cons env row payer currency items l ls items.line_items w i)

-- The rest of a checkout, once the attempt is claimed.
abbrev finish :
    Env → Package → Text → Text → Text → Result Claim × World → Result CheckoutOutcome × World
finish env p currency success_url cancel_url (ok attempt, w) =
    open_session env p currency success_url cancel_url attempt w
finish env p currency success_url cancel_url (raised e, w) = (raised e, w)

create_package_checkout-finish :
    (env : Env) (p : Package) (payer : Option User) (currency success_url cancel_url : Text)
    (w : World)
    → can_be_paid_by env p payer w.db ≡ none
    → create_package_checkout env p payer currency success_url cancel_url w
      ≡ finish env p currency success_url cancel_url (claim_checkout env p payer currency w)
unfolding create_package_checkout checkout_unless
create_package_checkout-finish env p payer currency success_url cancel_url w e = ground arith

-- The reply of Stripe to a claimed attempt decides the rest.
pub create_package_checkout-reply :
    (env : Env) (p row : Package) (payer : Option User) (currency success_url cancel_url : Text)
    (items : CheckoutItems) (l : LineItem) (ls : List LineItem) (transfer : Option (ℤ × Text))
    (w : World)
    → can_be_paid_by env p payer w.db ≡ none
    → lock_for_payment p.pk w.db ≡ some row
    → latest_incomplete row.pk w.db ≡ none
    → build_line_items env row currency w.db ≡ ok items
    → items.line_items ≡ l ∷ ls
    → transfer_to env items.total_cents currency (payout_account_id row w.db) ≡ ok transfer
    → let payment = pending_payment env row payer currency items w.db.next_pk in
      let reply =
        env.stripe.create_checkout_session
          (checkout_args p items success_url cancel_url transfer)
          (env.checkout_key w.db.next_pk) in
      create_package_checkout env p payer currency success_url cancel_url w
      ≡ save_session payment reply (record w { db = insert_payment payment w.db })
unfolding open_session payout_account_id
create_package_checkout-reply env p row payer currency success_url cancel_url items l ls transfer w
      free e k b i t =
    rw
      (
        create_package_checkout-finish env p payer currency success_url cancel_url w free,
        claim_checkout-claimed env p row payer currency items l ls w e k b i,
        t,
      )
      refl

remove_foreign :
    (k : ℕ) (xs : List Payment)
    → contains k (map (λ x. x.pk) xs) ≡ false
    → remove (λ x. x.pk == k) xs ≡ xs
unfolding remove contains
remove_foreign k [] e = refl
remove_foreign k (x ∷ xs) e = ground (arith, remove_foreign k xs)

remove_head :
    (k : ℕ) (x : Payment) (xs : List Payment)
    → x.pk ≡ k
    → contains k (map (λ y. y.pk) xs) ≡ false
    → remove (λ y. y.pk == k) (x ∷ xs) ≡ xs
unfolding remove
remove_head k x xs e h = ground (arith, remove_foreign k xs h)

-- If Stripe refuses the session of an attempt that was just claimed, the payer is told so and the
-- attempt is gone: nothing but the next primary key differs from before. The new key is one that no
-- payment has, the package can be paid and is open with no attempt under way, it has items, and the
-- fee is known.
pub create_package_checkout-stripe_error :
    (env : Env) (p row : Package) (payer : Option User) (currency success_url cancel_url : Text)
    (items : CheckoutItems) (l : LineItem) (ls : List LineItem) (transfer : Option (ℤ × Text))
    (w : World)
    → can_be_paid_by env p payer w.db ≡ none
    → lock_for_payment p.pk w.db ≡ some row
    → latest_incomplete row.pk w.db ≡ none
    → build_line_items env row currency w.db ≡ ok items
    → items.line_items ≡ l ∷ ls
    → transfer_to env items.total_cents currency (payout_account_id row w.db) ≡ ok transfer
    → env.stripe.create_checkout_session
        (checkout_args p items success_url cancel_url transfer)
        (env.checkout_key w.db.next_pk)
      ≡ raised stripe_error
    → contains w.db.next_pk (map (λ x. x.pk) w.db.payments) ≡ false
    → create_package_checkout env p payer currency success_url cancel_url w
      ≡ (ok (refused stripe_failed), record w { db = record w.db { next_pk = w.db.next_pk + 1 } })
unfolding save_session
create_package_checkout-stripe_error env p row payer currency success_url cancel_url items l ls
      transfer w free e k b i t s fresh =
    rw
      (
        create_package_checkout-reply env p row payer currency success_url cancel_url items l ls
            transfer w free e k b i t,
        s,
        remove_head w.db.next_pk (pending_payment env row payer currency items w.db.next_pk)
            w.db.payments refl fresh,
      )
      refl

latest_bound :
    (n : ℕ) (q : Payment → Bool) (xs : List Payment) {x : Payment}
    → All (λ y. y.created_at ≤ n) xs
    → latest (λ y. y.created_at) q xs ≡ some x
    → x.created_at ≤ n
unfolding latest
latest_bound n q [] h e = cc
latest_bound n q (y ∷ ys) {x} (k, h) e = elim (Option-cases (latest (λ z. z.created_at) q ys)) [
  | inl f ↦ ground arith
  | inr (z, f) ↦ ground (arith, latest_bound n q ys {x = z} h f)
]

newest_is_latest :
    (q : Payment → Bool) (x : Payment) (xs : List Payment)
    → q x ≡ true
    → All (λ y. y.created_at ≤ x.created_at) xs
    → latest (λ y. y.created_at) q (x ∷ xs) ≡ some x
unfolding latest
newest_is_latest q x xs e h = elim (Option-cases (latest (λ z. z.created_at) q xs)) [
  | inl f ↦ ground arith
  | inr (z, f) ↦ ground (arith, latest_bound x.created_at q xs {x = z} h f)
]

in_flight_refused :
    (env : Env) (p row : Package) (payer : Option User) (currency : Text) (earlier : Payment)
    (w : World)
    → lock_for_payment p.pk w.db ≡ some row
    → latest_incomplete row.pk w.db ≡ some earlier
    → is_pending earlier ≡ true
    → env.now < earlier.created_at + pending_session_staleness
    → claim_checkout env p payer currency w ≡ (ok (stopped (refused in_flight)), w)
unfolding claim_checkout claim_row claim_after no_rates_refused
in_flight_refused env p row payer currency earlier w e k i t = ground arith

-- Two people check out one package. Once the first has claimed it, and until 15 minutes later, a
-- second checkout is refused and changes nothing, as long as the first has not got its session. The
-- package is open with no attempt under way before, its items are not empty, no payment is dated
-- later than the claim, and the second person may pay the package too.
pub create_package_checkout-claim_checkout :
    (env later : Env) (p row : Package) (payer other : Option User)
    (currency money success_url cancel_url : Text) (items : CheckoutItems) (l : LineItem)
    (ls : List LineItem) (w : World)
    → lock_for_payment p.pk w.db ≡ some row
    → latest_incomplete row.pk w.db ≡ none
    → build_line_items env row currency w.db ≡ ok items
    → items.line_items ≡ l ∷ ls
    → All (λ x. x.created_at ≤ env.now) w.db.payments
    → later.now < env.now + pending_session_staleness
    → can_be_paid_by later p other w.db ≡ none
    → let (attempt, w') = claim_checkout env p payer currency w in
      create_package_checkout later p other money success_url cancel_url w'
      ≡ (ok (refused in_flight), w')
unfolding can_be_paid_by payout_account_id lock_for_payment latest_incomplete open_session
    is_pending
create_package_checkout-claim_checkout env later p row payer other currency money success_url
      cancel_url items l ls w e k b i dated soon free =
    let payment = pending_payment env row payer currency items w.db.next_pk in
    let w' : World = record w { db = insert_payment payment w.db } in
    rw
      (
        claim_checkout-claimed env p row payer currency items l ls w e k b i,
        create_package_checkout-finish later p other money success_url cancel_url w' free,
        in_flight_refused later p row other money payment w' e
            (newest_is_latest _ payment w.db.payments (ground arith) dated)
            (starts_with_append pending_session_prefix env.fresh_uuid) soon,
      )
      refl

transfer_to-raised :
    (env : Env) (total : ℕ) (currency account : Text) (found : Option Text)
    → found ≡ some account
    → compute env.fees (pos total) currency env.rates ≡ raised rate_unavailable
    → transfer_to env total currency found ≡ raised rate_unavailable
unfolding transfer_to
transfer_to-raised env total currency account found a c = ground arith

-- A fee that cannot be computed for want of a rate is no refusal but an error, and it leaves the
-- attempt claimed. The package can be paid and is open with no attempt under way, it has items, and
-- its creator has an active account.
pub create_package_checkout-fee_unavailable :
    (env : Env) (p row : Package) (payer : Option User) (currency success_url cancel_url : Text)
    (items : CheckoutItems) (l : LineItem) (ls : List LineItem) (account : Text) (w : World)
    → can_be_paid_by env p payer w.db ≡ none
    → lock_for_payment p.pk w.db ≡ some row
    → latest_incomplete row.pk w.db ≡ none
    → build_line_items env row currency w.db ≡ ok items
    → items.line_items ≡ l ∷ ls
    → payout_account_id row w.db ≡ some account
    → compute env.fees (pos items.total_cents) currency env.rates ≡ raised rate_unavailable
    → let payment = pending_payment env row payer currency items w.db.next_pk in
      create_package_checkout env p payer currency success_url cancel_url w
      ≡ (raised rate_unavailable, record w { db = insert_payment payment w.db })
unfolding open_session payout_account_id
create_package_checkout-fee_unavailable env p row payer currency success_url cancel_url items l ls
      account w free e k b i a c =
    rw
      (
        create_package_checkout-finish env p payer currency success_url cancel_url w free,
        claim_checkout-claimed env p row payer currency items l ls w e k b i,
        transfer_to-raised env items.total_cents currency account (payout_account_id row w.db) a c,
      )
      refl
