-- ===== src/Plaid/Services/Cooldown.antt =====
-- The cooldown of a bank item's sync (`dispatch_sync` of plaid_integration/services.py).
use papertrail.Base.{
  ◌≡◌, refl, ℕ, ◌+◌, ◌≤◌, true, false, some, List, [], ◌∷◌, ◌==◌, map, arith, ok, inl, inr,
  Bool-cases, KeysUnique, contains, exists, update,
}
use papertrail.Database.{World}
use papertrail.Plaid.Model.{PlaidItem}
use papertrail.Plaid.Services.{Clock, cooled_down, is_due, dispatch_sync}

stamped : ℕ → PlaidItem → PlaidItem
stamped now row = record row { last_synced_at = some now }

foreign_not_due :
    (clock : Clock) (pk : ℕ) (rows : List PlaidItem)
    → contains pk (map (λ x. x.pk) rows) ≡ false
    → exists (is_due clock pk) rows ≡ false
unfolding exists contains is_due
foreign_not_due clock pk [] h = refl
foreign_not_due clock pk (x ∷ rows) h = ground (arith, foreign_not_due clock pk rows)

foreign_unchanged :
    (clock : Clock) (pk : ℕ) (f : PlaidItem → PlaidItem) (rows : List PlaidItem)
    → contains pk (map (λ x. x.pk) rows) ≡ false
    → update (is_due clock pk) f rows ≡ rows
unfolding update contains is_due
foreign_unchanged clock pk f [] h = refl
foreign_unchanged clock pk f (x ∷ rows) h = ground (arith, foreign_unchanged clock pk f rows)

not_due_again :
    (clock later : Clock) (pk : ℕ) (rows : List PlaidItem)
    → later.now ≤ clock.now + later.cooldown
    → KeysUnique (λ x. x.pk) rows
    → exists (is_due clock pk) rows ≡ true
    → exists
        (is_due later pk)
        (update (is_due clock pk) (λ row. record row { last_synced_at = some clock.now }) rows)
      ≡ false
unfolding exists update is_due cooled_down
not_due_again clock later pk [] soon u h = cc
not_due_again clock later pk (x ∷ rows) soon (ux, u) h = elim (Bool-cases (x.pk == pk)) [
  | inl e ↦ ground (
    arith,
    foreign_not_due clock pk rows,
    foreign_not_due later pk rows,
    foreign_unchanged clock pk (λ row. record row { last_synced_at = some clock.now }) rows,
  )
  | inr e ↦ ground (arith, not_due_again clock later pk rows soon u)
]

none_due :
    (clock : Clock) (pk : ℕ) (f : PlaidItem → PlaidItem) (rows : List PlaidItem)
    → exists (is_due clock pk) rows ≡ false
    → update (is_due clock pk) f rows ≡ rows
unfolding exists update
none_due clock pk f [] h = refl
none_due clock pk f (x ∷ rows) h = ground (arith, none_due clock pk f rows)

-- A dispatch that finds no row whose cooldown is over sends nothing and changes nothing.
dispatch_sync_skips :
    (clock : Clock) (item : PlaidItem) (w : World)
    → exists (is_due clock item.pk) w.db.plaid_items ≡ false
    → dispatch_sync clock item w ≡ (ok false, w)
unfolding dispatch_sync
dispatch_sync_skips clock item w h = ground (
  arith,
  none_due clock item.pk (λ row. record row { last_synced_at = some clock.now }) w.db.plaid_items h,
)

dispatch_sync_cases :
    (clock : Clock) (item : PlaidItem) (w : World)
    → (dispatch_sync clock item w).0 ≡ ok true
    → (exists (is_due clock item.pk) w.db.plaid_items ≡ true)
      × ((dispatch_sync clock item w).1.db.plaid_items
          ≡ update
              (is_due clock item.pk)
              (λ row. record row { last_synced_at = some clock.now })
              w.db.plaid_items)
unfolding dispatch_sync
dispatch_sync_cases clock item w h = ground arith

-- Whatever asks for it, a webhook, a user or the hourly task: an item whose sync was just dispatched
-- is not dispatched again before its cooldown is over, and the second attempt changes nothing. The
-- items have different keys.
pub dispatch_sync-dispatch_sync :
    (clock later : Clock) (item : PlaidItem) (w : World)
    → KeysUnique (λ x. x.pk) w.db.plaid_items
    → later.now ≤ clock.now + later.cooldown
    → (dispatch_sync clock item w).0 ≡ ok true
    → let w' = (dispatch_sync clock item w).1 in dispatch_sync later item w' ≡ (ok false, w')
dispatch_sync-dispatch_sync clock later item w unique soon h =
    let (due, items) = dispatch_sync_cases clock item w h in
    dispatch_sync_skips later item (dispatch_sync clock item w).1
      (rw items (not_due_again clock later item.pk w.db.plaid_items soon unique due))
