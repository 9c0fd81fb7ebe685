-- ===== src/Billing/Tests.antt =====
-- A user with a document, a plan and a storage pack.
use papertrail.Base.{◌≡◌, refl, true, none, some, [], ◌∷◌, text, arith, first, contains}
use papertrail.Billing.Storage.{
  DocumentData, Store, create_document, delete_document, reconcile_storage_usage, counted_bytes,
  total_bytes, adjust_storage_usage,
}
use papertrail.Billing.Storage.Counters.{
  CountersAgree, creates, deletes, AllCurrent, changed_by, changed_by-CountersAgree,
}
use papertrail.Billing.Storage.Reconciled.{reconcile_storage_usage-CountersAgree}
use papertrail.Billing.Plans.{
  base_plan, Subscription, Subscriber, entries, active_subscriptions, winner, latest_first,
}
use papertrail.Billing.Plans.Latest.{IsLatest, winner-latest_first}

abbrev receipt : DocumentData
receipt = record { pk = 1; user_id = 7; file_size = some 300 }

abbrev store : Store
store = record {
  accounts = record { pk = 7; storage_used_bytes = 300 } ∷ [];
  documents = receipt ∷ [];
  next_pk = 2;
}

-- A second document is uploaded, and the first is deleted.
abbrev uploaded : Store
uploaded = create_document 7 (some 50) store

changed_by-CountersAgree_example : CountersAgree (delete_document receipt uploaded)
unfolding total_bytes counted_bytes first create_document adjust_storage_usage contains AllCurrent
    changed_by
changed_by-CountersAgree_example =
    changed_by-CountersAgree (creates 7 (some 50) ∷ deletes receipt ∷ []) store (tt, (refl, tt))
      ((refl, tt), (refl, tt), (omega arith, tt))

reconcile_storage_usage-CountersAgree_example :
    let s' =
      (reconcile_storage_usage
        (record store { accounts = record { pk = 7; storage_used_bytes = 9 } ∷ [] })).0 in
    (s'.documents ≡ receipt ∷ []) × CountersAgree s'
reconcile_storage_usage-CountersAgree_example =
    reconcile_storage_usage-CountersAgree
      (record store { accounts = record { pk = 7; storage_used_bytes = 9 } ∷ [] })

abbrev pro : Subscription
pro = record {
  pk = 4;
  status = text "active";
  created = 10;
  items = some (text "prod_VC8WUN1RO4Apqx") ∷ [];
}

abbrev subscriber : Subscriber
subscriber = record {
  is_authenticated = true;
  customer = pro ∷ [];
  linked = [];
  subscription = none;
}

winner-latest_first_example :
    let es = entries (active_subscriptions subscriber) in
    IsLatest base_plan es (winner base_plan (latest_first es))
winner-latest_first_example = winner-latest_first base_plan subscriber
