-- ===== src/Billing/Storage/Sums.antt =====
-- The sum of a user's documents when a row changes (billing/storage.py).
use papertrail.Base.{
  ◌≡◌, refl, ℕ, ◌+◌, true, false, Option, some, List, [], ◌∷◌, ◌==◌, arith, map, contains, pos,
  ◌-ℤ◌, ◌+ℤ◌, pos_part, inl, inr, Bool-cases, KeysUnique, first, update, remove,
}
use papertrail.Billing.Storage.{DocumentData, counted_bytes, stored_size, save_size, total_bytes}

pub grows : (c total : ℕ) → pos_part (pos total +ℤ (pos c -ℤ pos 0)) ≡ c + total
unfolding ◌+ℤ◌ ◌-ℤ◌
grows c total = ground arith

pub total_foreign :
    (pk u : ℕ) (size : Option ℕ) (documents : List DocumentData)
    → contains pk (map (λ d. d.pk) documents) ≡ false
    → total_bytes u (save_size pk size documents) ≡ total_bytes u documents
unfolding total_bytes update contains
total_foreign pk u size [] h = refl
total_foreign pk u size (d ∷ ds) h = ground (arith, total_foreign pk u size ds)

-- What a saved size does to the sum of the row's user.
pub total_saved :
    (pk u : ℕ) (size : Option ℕ) (documents : List DocumentData) {row : DocumentData}
    → KeysUnique (λ d. d.pk) documents
    → first (λ d. d.pk == pk) documents ≡ some row
    → (row.user_id == u) ≡ true
    → total_bytes u (save_size pk size documents) + counted_bytes row
      ≡ total_bytes u documents + counted_bytes (record row { file_size = size })
unfolding total_bytes update first
total_saved pk u size [] {row} unique e h = cc
total_saved pk u size (d ∷ ds) {row} (ud, unique) e h = elim (Bool-cases (d.pk == pk)) [
  | inl k ↦ ground (arith, total_foreign d.pk u size ds ud, total_foreign pk u size ds)
  | inr k ↦ ground (arith, total_saved pk u size ds {row = row} unique)
]

pub total_saved_other :
    (pk u : ℕ) (size : Option ℕ) (documents : List DocumentData) {row : DocumentData}
    → KeysUnique (λ d. d.pk) documents
    → first (λ d. d.pk == pk) documents ≡ some row
    → (row.user_id == u) ≡ false
    → total_bytes u (save_size pk size documents) ≡ total_bytes u documents
unfolding total_bytes update first
total_saved_other pk u size [] {row} unique e h = cc
total_saved_other pk u size (d ∷ ds) {row} (ud, unique) e h = elim (Bool-cases (d.pk == pk)) [
  | inl k ↦ ground (arith, total_foreign d.pk u size ds ud)
  | inr k ↦ ground (arith, total_saved_other pk u size ds {row = row} unique)
]

pub moved :
    (new old before after : ℕ)
    → after + old ≡ before + new
    → pos_part (pos before +ℤ (pos new -ℤ pos old)) ≡ after
unfolding ◌+ℤ◌ ◌-ℤ◌
moved new old before after h = ground arith

pub stored_size_found :
    (pk : ℕ) (documents : List DocumentData) {row : DocumentData}
    → first (λ d. d.pk == pk) documents ≡ some row
    → stored_size pk documents ≡ counted_bytes row
unfolding stored_size
stored_size_found pk documents e = ground arith

pub total_removed_foreign :
    (pk u : ℕ) (documents : List DocumentData)
    → contains pk (map (λ d. d.pk) documents) ≡ false
    → total_bytes u (remove (λ x. x.pk == pk) documents) ≡ total_bytes u documents
unfolding total_bytes remove contains
total_removed_foreign pk u [] h = refl
total_removed_foreign pk u (d ∷ ds) h = ground (arith, total_removed_foreign pk u ds)

pub total_removed :
    (pk u : ℕ) (documents : List DocumentData) {row : DocumentData}
    → KeysUnique (λ d. d.pk) documents
    → first (λ d. d.pk == pk) documents ≡ some row
    → (row.user_id == u) ≡ true
    → total_bytes u (remove (λ x. x.pk == pk) documents) + counted_bytes row
      ≡ total_bytes u documents
unfolding total_bytes remove first
total_removed pk u [] {row} unique e h = cc
total_removed pk u (d ∷ ds) {row} (ud, unique) e h = elim (Bool-cases (d.pk == pk)) [
  | inl k ↦ ground (arith, total_removed_foreign d.pk u ds ud, total_removed_foreign pk u ds)
  | inr k ↦ ground (arith, total_removed pk u ds {row = row} unique)
]

pub total_removed_other :
    (pk u : ℕ) (documents : List DocumentData) {row : DocumentData}
    → KeysUnique (λ d. d.pk) documents
    → first (λ d. d.pk == pk) documents ≡ some row
    → (row.user_id == u) ≡ false
    → total_bytes u (remove (λ x. x.pk == pk) documents) ≡ total_bytes u documents
unfolding total_bytes remove first
total_removed_other pk u [] {row} unique e h = cc
total_removed_other pk u (d ∷ ds) {row} (ud, unique) e h = elim (Bool-cases (d.pk == pk)) [
  | inl k ↦ ground (arith, total_removed_foreign d.pk u ds ud, total_removed_foreign pk u ds)
  | inr k ↦ ground (arith, total_removed_other pk u ds {row = row} unique)
]
