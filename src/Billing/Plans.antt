-- ===== src/Billing/Plans.antt =====
-- The products on sale and the plan that a user has (billing/metadata.py, billing/features.py).
pub mod Latest
use papertrail.Base.{
  ℕ, ◌+◌, Bool, true, false, not, ◌&&◌, ◌||◌, Option, none, some, List, [], ◌∷◌, ◌++◌, ◌==◌, ltb,
  if◌then◌else◌, Text, text, text_eq, exists, filter,
}

pub data Category : Type 0 where
  base_plan storage_plan : Category

abbrev pub same_category : Category → Category → Bool
same_category base_plan base_plan = true
same_category base_plan storage_plan = false
same_category storage_plan base_plan = false
same_category storage_plan storage_plan = true

-- The storage limit is in half gigabytes, since the free plan has one half. A scan limit of `none`
-- is no limit. Names and descriptions are left out.
pub record ProductMetadata : Type 0 where
  pub stripe_id : Text
  pub category : Category
  pub storage_limit_half_gb : ℕ
  pub monthly_scan_limit : Option ℕ
  pub pro_only : Bool

abbrev pub verity_free : ProductMetadata
verity_free = record {
  stripe_id = text "free";
  category = base_plan;
  storage_limit_half_gb = 1;
  monthly_scan_limit = some 15;
  pro_only = false;
}

abbrev pub verity_pro : ProductMetadata
verity_pro = record {
  stripe_id = text "prod_VC8WUN1RO4Apqx";
  category = base_plan;
  storage_limit_half_gb = 10;
  monthly_scan_limit = some 500;
  pro_only = false;
}

abbrev pub storage_upgrade_10 : ProductMetadata
storage_upgrade_10 = record {
  stripe_id = text "prod_V0dPTSMZjCZNuk";
  category = storage_plan;
  storage_limit_half_gb = 20;
  monthly_scan_limit = none;
  pro_only = true;
}

abbrev pub storage_upgrade_5 : ProductMetadata
storage_upgrade_5 = record {
  stripe_id = text "prod_VCgHfYDCC6aDCN";
  category = storage_plan;
  storage_limit_half_gb = 10;
  monthly_scan_limit = none;
  pro_only = true;
}

abbrev pub storage_upgrade_1 : ProductMetadata
storage_upgrade_1 = record {
  stripe_id = text "prod_VCg5fBU3aujCi9";
  category = storage_plan;
  storage_limit_half_gb = 2;
  monthly_scan_limit = none;
  pro_only = false;
}

abbrev pub products : List ProductMetadata
products =
    verity_pro ∷ verity_free ∷ storage_upgrade_10 ∷ storage_upgrade_5 ∷ storage_upgrade_1 ∷ []

-- `PRODUCTS.get(product_id)`.
unfoldable pub find_product : Text → List ProductMetadata → Option ProductMetadata
find_product id [] = none
find_product id (p ∷ ps) =
    let rest = find_product id ps in if text_eq p.stripe_id id then some p else rest

-- `category_for_product`.
unfoldable pub category_for_product : Option Text → Option Category
category_for_product none = none
category_for_product (some id) = elim (find_product id products) [
  | none ↦ none
  | some p ↦ some p.category
]

-- A subscription, with the products of its items.
pub record Subscription : Type 0 where
  pub pk : ℕ
  pub status : Text
  pub created : ℕ
  pub items : List (Option Text)

-- A user, with the subscriptions of the user's customer, of other customers that are linked to the
-- user, and the one of the user's row.
pub record Subscriber : Type 0 where
  pub is_authenticated : Bool
  pub customer : List Subscription
  pub linked : List Subscription
  pub subscription : Option Subscription

unfoldable pub is_active_status : Text → Bool
is_active_status status = text_eq status (text "active") || text_eq status (text "trialing")

append_direct : List Subscription → Option Subscription → List Subscription
append_direct subs none = subs
append_direct subs (some direct) =
    if exists (λ s. s.pk == direct.pk) subs then subs else subs ++ direct ∷ []

-- `_active_subscriptions`, without its memo.
unfoldable pub active_subscriptions : Subscriber → List Subscription
unfolding append_direct
active_subscriptions u =
    if not u.is_authenticated
    then []
    else filter (λ s. is_active_status s.status)
        (append_direct (u.customer ++ u.linked) u.subscription)

-- `has_active_subscription`.
unfoldable pub has_active_subscription : Subscriber → Bool
has_active_subscription u = elim (active_subscriptions u) [ [] ↦ false | s ∷ ss ↦ true ]

-- A product of an active subscription.
pub record Entry : Type 0 where
  pub created : ℕ
  pub pk : ℕ
  pub meta : ProductMetadata

meta_of : Option Text → Option ProductMetadata
meta_of none = none
meta_of (some id) = find_product id products

-- `_metas_for_subscription`.
unfoldable pub metas_for : Subscription → List (Option Text) → List Entry
unfolding meta_of
metas_for s [] = []
metas_for s (item ∷ items) =
    let rest = metas_for s items in
    elim (meta_of item) [
      | none ↦ rest
      | some m ↦ (record { created = s.created; pk = s.pk; meta = m }) ∷ rest
    ]

unfoldable pub entries : List Subscription → List Entry
entries [] = []
entries (s ∷ ss) = metas_for s s.items ++ entries ss

-- Whether `(a.created, a.pk)` is less than `(b.created, b.pk)`.
unfoldable pub is_earlier : Entry → Entry → Bool
is_earlier a b = ltb a.created b.created || (a.created == b.created && ltb a.pk b.pk)

unfoldable pub insert_latest : Entry → List Entry → List Entry
insert_latest x [] = x ∷ []
insert_latest x (y ∷ ys) =
    let rest = insert_latest x ys in if is_earlier x y then y ∷ rest else x ∷ y ∷ ys

-- `sorted(..., reverse=True)`, which is stable.
unfoldable pub latest_first : List Entry → List Entry
latest_first [] = []
latest_first (x ∷ xs) = insert_latest x (latest_first xs)

-- `winners.get(category)`: `setdefault` keeps the first entry of a category.
unfoldable pub winner : Category → List Entry → Option Entry
winner category [] = none
winner category (e ∷ es) =
    let rest = winner category es in if same_category e.meta.category category then some e else rest

-- `_products_by_category(user).get(category)`.
unfoldable pub product_of : Category → Subscriber → Option ProductMetadata
product_of category u = elim (winner category (latest_first (entries (active_subscriptions u)))) [
  | none ↦ none
  | some e ↦ some e.meta
]

-- `plan_for_user`.
unfoldable pub plan_for_user : Subscriber → ProductMetadata
plan_for_user u = elim (product_of base_plan u) [ none ↦ verity_free | some m ↦ m ]

-- `storage_addons_for_user`.
unfoldable pub storage_addons_for_user : Subscriber → List ProductMetadata
storage_addons_for_user u = elim (product_of storage_plan u) [ none ↦ [] | some m ↦ m ∷ [] ]
