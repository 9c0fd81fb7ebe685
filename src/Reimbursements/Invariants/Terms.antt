-- ===== src/Reimbursements/Invariants/Terms.antt =====
-- The terms of packages and payments, which no event changes (reimbursements/webhooks.py).
use papertrail.Base.{
  sym, ap, ◌≡◌, refl, ◌∙◌, Bool, Option, List, [], ◌∷◌, ◌==◌, ℕ, Text, update, inl, inr, Bool-cases,
}
use papertrail.Database.{World, Env, Db, create_audit_log}
use papertrail.Records.Model.{User}
use papertrail.Reimbursements.Model.{Package, Payment}
use papertrail.Reimbursements.Package.{settled, reopened}
use papertrail.Reimbursements.Webhooks.{Event, process_stripe_event}
use papertrail.Reimbursements.Writes.{KeptByWrites, IsPaymentWrite}
use papertrail.Reimbursements.Writes.Events.{process_stripe_event-Keeps}

-- The same package, up to its settlement.
abbrev pub terms : Package → Package
terms p = reopened p

-- The columns of a payment that only checkout writes.
abbrev pub payment_terms : Payment → (ℕ × ℕ × Option User) × (Text × Option ℕ × Text)
payment_terms p = (
  (p.pk, p.package_pk, p.payer),
  (p.stripe_checkout_session_id, p.expected_amount_cents, p.payer_currency),
)

-- The same rows in the same order, up to `f`.
abbrev pub SameBy : {A B : Type 0} → (A → B) → List A → List A → Type 0
SameBy f [] [] = Unit
SameBy f [] (y ∷ ys) = ⊥
SameBy f (x ∷ xs) [] = ⊥
SameBy f (x ∷ xs) (y ∷ ys) = (f x ≡ f y) × SameBy f xs ys

SameBy-refl : {A B : Type 0} (f : A → B) (xs : List A) → SameBy f xs xs
SameBy-refl f [] = tt
SameBy-refl f (x ∷ xs) = (refl, SameBy-refl f xs)

SameBy-update :
    {A B : Type 0} (f : A → B) (q : A → Bool) (g : A → A) (xs ys : List A)
    → ((y : A) → f y ≡ f (g y))
    → SameBy f xs ys
    → SameBy f xs (update q g ys)
unfolding update
SameBy-update f q g [] [] same h = tt
SameBy-update f q g [] (y ∷ ys) same h = h
SameBy-update f q g (x ∷ xs) [] same h = h
SameBy-update f q g (x ∷ xs) (y ∷ ys) same (e, h) = elim (Bool-cases (q y)) [
  | inl t ↦ rw t (e ∙ same y, SameBy-update f q g xs ys same h)
  | inr t ↦ rw t (e, SameBy-update f q g xs ys same h)
]

abbrev pub SameTerms : Db → World → Type 0
SameTerms d w =
    SameBy terms d.packages w.db.packages × SameBy payment_terms d.payments w.db.payments

payment_terms_kept :
    (f : Payment → Payment)
    → IsPaymentWrite f
    → (p : Payment) → payment_terms p ≡ payment_terms (f p)
payment_terms_kept f same p = sym (ap payment_terms (same p))

SameTerms-KeptByWrites : (d : Db) → KeptByWrites (SameTerms d)
unfolding create_audit_log
SameTerms-KeptByWrites d = record {
  access = record {
    by_rollback = λ w w' h h'. h;
    by_share_write = λ f share. record {
      at = λ w h. rw (ap (λ d. d.packages) (share w.db), ap (λ d. d.payments) (share w.db)) h;
    };
    by_audit = λ env user action r details. record { at = λ w h. h };
  };
  by_side_write = λ f side. record { at = λ w h. rw ((side w.db).0, (side w.db).1) h };
  by_settlement = λ pk payer now. record {
    at = λ w (h, k). (
      SameBy-update terms (λ p. p.pk == pk) (settled payer now) d.packages w.db.packages (λ p. refl)
          h,
      k,
    );
  };
  by_reopening = λ pk. record {
    at = λ w (h, k).
        (SameBy-update terms (λ p. p.pk == pk) reopened d.packages w.db.packages (λ p. refl) h, k);
  };
  by_payment_write = λ pk f same. record {
    at = λ w (h, k). (
      h,
      SameBy-update payment_terms (λ p. p.pk == pk) f d.payments w.db.payments
          (payment_terms_kept f same) k,
    );
  };
  by_refund = λ intent reason w h. h;
}

-- An event adds and removes no package and no payment. Of a package it changes at most status,
-- payer and time of payment, never its owner, recipient, records, currency or deletion; of a
-- payment never the package, the payer, the session, the expected amount or the currency.
pub process_stripe_event-SameTerms :
    (env : Env) (event : Event) (w : World) → SameTerms w.db (process_stripe_event env event w).1
process_stripe_event-SameTerms env event w =
    (process_stripe_event-Keeps (SameTerms-KeptByWrites w.db) env event).at w
      (SameBy-refl terms w.db.packages, SameBy-refl payment_terms w.db.payments)
