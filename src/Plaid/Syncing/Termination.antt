-- ===== src/Plaid/Syncing/Termination.antt =====
-- The `while has_more` loop ends when Plaid's pages do (plaid_integration/tasks.py).
use papertrail.Base.{
  ◌≡◌, ◌≢◌, ℕ, zero, not, ◌||◌, pure, ◌>>=◌, suc, true, false, Bool, Option, none, some, Text,
  Result, ok, raised,
}
use papertrail.Database.{World, M}
use papertrail.Plaid.Model.{PlaidItem, Page}
use papertrail.Plaid.Folders.{FolderCache}
use papertrail.Plaid.Syncing.{Bank, Stats, cursor_after, store_page, sync_pages}

-- Whether, from this cursor on, Plaid answers at most so many pages before one is the last or is an
-- error.
unfoldable pub ends_within : (Text → Result Page) → ℕ → Text → Bool
ends_within sync zero cursor = false
ends_within sync (suc n) cursor = elim (sync cursor) [
  | raised e ↦ true
  | ok page ↦ not page.has_more || ends_within sync n (cursor_after cursor page)
]

-- A run that is not cut off.
abbrev pub Finishes : Result (Option Stats) × World → Type 0
Finishes (r, w) = r ≢ ok none

then_Finishes :
    {A : Type 0} (r : Result A) (w : World) (f : A → M (Option Stats))
    → ((a : A) → Finishes (f a w))
    → Finishes
        (elim r as (λ _. Result (Option Stats) × World) [ ok a ↦ f a w | raised e ↦ (raised e, w) ])
then_Finishes (ok a) w f h = h a
then_Finishes (raised e) w f h = λ k. cc

after_page :
    (fuel : ℕ) (bank : Bank) (item : PlaidItem) (cursor : Text) (page : Page)
    → Stats × FolderCache
    → M (Option Stats)
after_page fuel bank item cursor page stored = elim (page.has_more) [
  | true ↦ sync_pages fuel bank item (cursor_after cursor page) stored.0 stored.1
  | false ↦ pure (some stored.0)
]

-- The induction hypothesis.
abbrev AllFinish : ℕ → Bank → PlaidItem → Type 0
AllFinish fuel bank item =
    (cursor : Text) (stats : Stats) (cache : FolderCache) (w : World)
    → ends_within (bank.transactions_sync item.access_token) fuel cursor ≡ true
    → Finishes (sync_pages fuel bank item cursor stats cache w)

after_page-Finishes :
    (fuel : ℕ) (bank : Bank) (item : PlaidItem) (cursor : Text) (page : Page) (w : World)
    (stored : Stats × FolderCache)
    → AllFinish fuel bank item
    → (not page.has_more
        || ends_within (bank.transactions_sync item.access_token) fuel (cursor_after cursor page))
      ≡ true
    → Finishes (after_page fuel bank item cursor page stored w)
unfolding after_page
after_page-Finishes fuel bank item cursor page w stored ih h =
    let next = cursor_after cursor page in
    elim (page.has_more)
        as (λ b.
          (not b || ends_within (bank.transactions_sync item.access_token) fuel next) ≡ true
          → Finishes (
              (elim b as (λ _. M (Option Stats)) [
                | true ↦ sync_pages fuel bank item next stored.0 stored.1
                | false ↦ pure (some stored.0)
              ])
                w)) [ true ↦ λ more. ih next stored.0 stored.1 w more | false ↦ λ done. λ k. cc ]
      h

after_sync-Finishes :
    (fuel : ℕ) (bank : Bank) (item : PlaidItem) (cursor : Text) (stats : Stats)
    (cache : FolderCache) (w : World) (r : Result Page)
    → AllFinish fuel bank item
    → elim r [
      | raised e ↦ true
      | ok page ↦
          not page.has_more
          || ends_within (bank.transactions_sync item.access_token) fuel (cursor_after cursor page)
    ]
      ≡ true
    → Finishes (elim r as (λ _. Result (Option Stats) × World) [
      | ok page ↦
          (store_page bank item cursor page stats cache >>= after_page fuel bank item cursor page) w
      | raised e ↦ (raised e, w)
    ])
after_sync-Finishes fuel bank item cursor stats cache w (raised e) ih h = λ k. cc
after_sync-Finishes fuel bank item cursor stats cache w (ok page) ih h =
    then_Finishes (store_page bank item cursor page stats cache w).0
      (store_page bank item cursor page stats cache w).1 (after_page fuel bank item cursor page)
      λ stored. after_page-Finishes fuel bank item cursor page _ stored ih h

-- If Plaid's pages end within a number of requests, that much fuel is enough: the loop is not cut
-- off, whatever the pages hold and whether they can be stored.
pub sync_pages-Finishes :
    (fuel : ℕ) (bank : Bank) (item : PlaidItem) (cursor : Text) (stats : Stats)
    (cache : FolderCache) (w : World)
    → ends_within (bank.transactions_sync item.access_token) fuel cursor ≡ true
    → Finishes (sync_pages fuel bank item cursor stats cache w)
unfolding sync_pages ends_within after_page
sync_pages-Finishes zero bank item cursor stats cache w h = cc
sync_pages-Finishes (suc fuel) bank item cursor stats cache w h =
    after_sync-Finishes fuel bank item cursor stats cache w
      (bank.transactions_sync item.access_token cursor) (sync_pages-Finishes fuel bank item) h
