-- ===== src/Reimbursements/Model.antt =====
-- The rows of the reimbursements app (reimbursements/models.py), the objects that Stripe sends,
-- and what a row says about itself.
use papertrail.Base.{
  ℕ, Bool, true, false, ◌&&◌, not, Option, none, some, List, ltb, ℤ, Text, is_blank,
}
use papertrail.Money.Decimal.{Decimal}
use papertrail.Records.Model.{User}

-- `open` in the source.
pub data Status : Type 0 where
  queued opened paid : Status

abbrev pub is_queued : Status → Bool
is_queued queued = true
is_queued opened = false
is_queued paid = false

abbrev pub is_open : Status → Bool
is_open queued = false
is_open opened = true
is_open paid = false

abbrev pub is_paid : Status → Bool
is_paid queued = false
is_paid opened = false
is_paid paid = true

pub record StripeAccount : Type 0 where
  pub user : ℕ
  pub stripe_account_id : Text
  pub stripe_details_submitted : Bool
  pub charges_enabled : Bool
  pub payouts_enabled : Bool

-- `StripeAccount.is_active`.
unfoldable pub account_is_active : StripeAccount → Bool
account_is_active a =
    not (is_blank a.stripe_account_id)
    && (a.stripe_details_submitted && (a.charges_enabled && a.payouts_enabled))

-- `records` is the many-to-many relation, by primary key.
pub record Package : Type 0 where
  pub pk : ℕ
  pub uuid : Text
  pub creator : User
  pub recipient : Option User
  pub recipient_email : Text
  pub title : Text
  pub currency : Text
  pub records : List ℕ
  pub status : Status
  pub created_at : ℕ
  pub expires_at : Option ℕ
  pub paid_by : Option User
  pub paid_at : Option ℕ
  pub deleted_at : Option ℕ

pub record Payment : Type 0 where
  pub pk : ℕ
  pub package_pk : ℕ
  pub payer : Option User
  pub stripe_checkout_session_id : Text
  pub stripe_payment_intent_id : Text
  pub amount_paid : Decimal
  pub expected_amount_cents : Option ℕ
  pub payer_currency : Text
  pub is_completed : Bool
  pub created_at : ℕ

pub record Verification : Type 0 where
  pub package_pk : ℕ
  pub email : Text
  pub code_hash : Text
  pub attempts : ℕ
  pub expires_at : ℕ
  pub verified_at : Option ℕ

-- A Checkout Session; the fields that are missing or null are `none` or blank.
pub record Session : Type 0 where
  pub id : Text
  pub session_status : Text
  pub url : Text
  pub payment_status : Text
  pub currency : Text
  pub amount_total : Option ℤ
  pub payment_intent : Text
  pub package_uuid : Text

pub record PaymentIntent : Type 0 where
  pub id : Text
  pub intent_status : Text
  pub currency : Text
  pub amount_received : ℤ
  pub amount : ℤ
  pub package_uuid : Text

pub record Charge : Type 0 where
  pub payment_intent : Text

-- `is_deleted`.
abbrev pub is_deleted : Package → Bool
is_deleted p = elim (p.deleted_at) [ none ↦ false | some _ ↦ true ]

expired_at : Option ℕ → ℕ → Bool
expired_at none now = false
expired_at (some t) now = ltb t now

-- `ReimbursementPackage.is_expired`.
unfoldable pub package_is_expired : ℕ → Package → Bool
unfolding expired_at
package_is_expired now p = expired_at p.expires_at now

-- `recipient_address`.
unfoldable pub recipient_address : Package → Text
recipient_address p = elim (p.recipient) [ some u ↦ u.email | none ↦ p.recipient_email ]

-- A line of a Checkout Session; `description` is blank where it is left out, and every quantity is
-- one.
pub record LineItem : Type 0 where
  pub currency : Text
  pub name : Text
  pub description : Text
  pub unit_amount : ℕ

-- The arguments of a new Checkout Session. `transfer` is the application fee and the destination.
pub record CheckoutArgs : Type 0 where
  pub line_items : List LineItem
  pub package_uuid : Text
  pub success_url : Text
  pub cancel_url : Text
  pub transfer : Option (ℤ × Text)
