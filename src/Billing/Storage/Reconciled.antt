-- ===== src/Billing/Storage/Reconciled.antt =====
-- What the recomputation of the counters ends with (`reconcile_storage_usage` of
-- billing/storage.py).
use papertrail.Base.{
  ◌≡◌, refl, ap, ℕ, true, false, List, [], ◌∷◌, ◌==◌, arith, contains, inl, inr, Bool-cases, All,
  All-map, update,
}
use papertrail.Billing.Storage.{
  Account, DocumentData, Store, total_bytes, owners, set_bytes, write_totals, is_stale, zero_stale,
  reconcile_storage_usage,
}
use papertrail.Billing.Storage.Counters.{CountersAgree}

contains_eq : (a b : ℕ) (ks : List ℕ) → (a == b) ≡ true → contains a ks ≡ contains b ks
contains_eq a b ks h = ap (λ k. contains k ks) (ground arith)

-- A user without documents stores nothing.
total_unowned :
    (u : ℕ) (documents : List DocumentData)
    → contains u (owners documents) ≡ false
    → total_bytes u documents ≡ 0
unfolding total_bytes owners contains
total_unowned u [] h = refl
total_unowned u (d ∷ ds) h = elim (Bool-cases (contains d.user_id (owners ds))) [
  | inl e ↦ ground (arith, contains_eq d.user_id u (owners ds), total_unowned u ds)
  | inr e ↦ ground (arith, total_unowned u ds)
]

module _ (documents : List DocumentData) where
  IsRight : Account → Type 0
  IsRight a = a.storage_used_bytes ≡ total_bytes a.pk documents

  -- The counter of an owner of documents is right.
  OwnerIsRight : Account → Type 0
  OwnerIsRight a = contains a.pk (owners documents) ≡ true → IsRight a

  -- An account is one to come, or it is right if it is an owner's.
  RightBut : List ℕ → Account → Type 0
  RightBut uids a = contains a.pk uids ≡ false → OwnerIsRight a

  written :
      (uid : ℕ) (uids : List ℕ) (accounts : List Account)
      → All (RightBut (uid ∷ uids)) accounts
      → All
          (RightBut uids)
          (update (λ a. a.pk == uid) (set_bytes (total_bytes uid documents)) accounts)
  unfolding update contains RightBut OwnerIsRight IsRight
  written uid uids [] h = tt
  written uid uids (a ∷ accounts) (k, h) = elim (Bool-cases (a.pk == uid)) [
    | inl e ↦ rw e (
      λ unwritten owner. ap (λ u. total_bytes u documents) (ground arith),
      written uid uids accounts h,
    )
    | inr e ↦ rw e (λ unwritten. k (ground arith), written uid uids accounts h)
  ]

  write_totals-OwnerIsRight :
      (uids : List ℕ) (s : Store) (corrected : ℕ)
      → s.documents ≡ documents
      → All (RightBut uids) s.accounts
      → All OwnerIsRight (write_totals uids (s, corrected)).0.accounts
  unfolding write_totals RightBut contains
  write_totals-OwnerIsRight [] s corrected e h = All-map s.accounts (λ a k. k refl) h
  write_totals-OwnerIsRight (uid ∷ uids) s corrected e h =
      write_totals-OwnerIsRight uids _ _ e (rw e (written uid uids s.accounts h))

  zeroed :
      (accounts : List Account)
      → All OwnerIsRight accounts
      → All IsRight (update (is_stale (owners documents)) (set_bytes 0) accounts)
  unfolding update is_stale OwnerIsRight IsRight
  zeroed [] h = tt
  zeroed (a ∷ accounts) (k, h) = elim (Bool-cases (contains a.pk (owners documents))) [
    | inl e ↦ (ground (arith, k e), zeroed accounts h)
    | inr e ↦ (ground (arith, total_unowned a.pk documents e), zeroed accounts h)
  ]

to_come :
    (documents : List DocumentData) (accounts : List Account)
    → All (RightBut documents (owners documents)) accounts
unfolding RightBut OwnerIsRight
to_come documents [] = tt
to_come documents (a ∷ accounts) = (λ unwritten owner. cc, to_come documents accounts)

write_totals_documents :
    (uids : List ℕ) (s : Store) (corrected : ℕ)
    → (write_totals uids (s, corrected)).0.documents ≡ s.documents
unfolding write_totals
write_totals_documents [] s corrected = refl
write_totals_documents (uid ∷ uids) s corrected = write_totals_documents uids _ _

-- Whatever the counters were, after a recomputation for all users every one is the sum of the sizes
-- of its user's documents, which stay as they were.
pub reconcile_storage_usage-CountersAgree :
    (s : Store)
    → let s' = (reconcile_storage_usage s).0 in (s'.documents ≡ s.documents) × CountersAgree s'
unfolding reconcile_storage_usage zero_stale IsRight
reconcile_storage_usage-CountersAgree s =
    let uids = owners s.documents in
    let same = write_totals_documents uids s 0 in
    (
      same,
      rw same (
          zeroed s.documents (write_totals uids (s, 0)).0.accounts
            (write_totals-OwnerIsRight s.documents uids s 0 refl (to_come s.documents s.accounts))),
    )
