-- ===== src/Records/Services/Bulk.antt =====
-- What a bulk operation on records changes (`bulk_toggle_archive` of records/services.py).
use papertrail.Base.{
  ◌≡◌, refl, ap, sym, ◌∙◌, ℕ, ◌+◌, Bool, true, false, not, List, [], ◌∷◌, arith, ltb, map, length,
  length-append, length-map, contains, Result, ok, raised, bulk_limit_exceeded, filter, update,
  KeysUnique, update-update_found,
}
use papertrail.Database.{World, Env, atomic}
use papertrail.Records.Model.{User, Record}
use papertrail.Records.Services.{
  bulk_limit, is_selected, set_active, toggle_entry, toggled, toggle_found, bulk_toggle_archive,
}

update-same : {A : Type 0} (q : A → Bool) (xs : List A) → update q (λ x. x) xs ≡ xs
unfolding update
update-same q [] = refl
update-same q (x ∷ xs) = ground (arith, update-same q xs)

found_update :
    (q : Record → Bool) (g : Record → Record) (rows : List Record)
    → KeysUnique (λ r. r.pk) rows
    → update (λ r. contains r.pk (map (λ x. x.pk) (filter q rows))) g rows ≡ update q g rows
found_update q g rows u =
    ap (update (λ r. contains r.pk (map (λ x. x.pk) (filter q rows))) g) (sym (update-same q rows))
    ∙ update-update_found (λ r. r.pk) q (λ r. r) g rows (λ x. refl) u

none_contained :
    {A : Type 0} (g : A → A) (key : A → ℕ) (rows : List A)
    → update (λ r. contains (key r) []) g rows ≡ rows
unfolding update contains
none_contained g key [] = refl
none_contained g key (r ∷ rows) = ground (arith, none_contained g key rows)

abbrev Toggles : Env → User → Bool → List Record → World → Result ℕ × World → Type 0
Toggles env user archive found w (result, w') =
    (result ≡ ok (length found))
    × (w'.db.records ≡ (toggled env user archive found w.db).records)
    × (length w'.db.audit ≡ length found + length w.db.audit)

toggle_found-Toggles :
    (env : Env) (user : User) (archive : Bool) (found : List Record) (w : World)
    → Toggles env user archive found w (toggle_found env user archive found w)
unfolding toggle_found
toggle_found-Toggles env user archive [] w =
    (refl, sym (none_contained (set_active (not archive)) (λ r. r.pk) w.db.records), omega arith)
toggle_found-Toggles env user archive (r ∷ rs) w = (
  refl,
  refl,
  length-append (map (toggle_entry env user archive) (r ∷ rs)) w.db.audit
      ∙ ap (λ n. n + length w.db.audit) (length-map (r ∷ rs) (toggle_entry env user archive)),
)

bulk-toggle_found :
    (env : Env) (ids : List ℕ) (user : User) (archive : Bool) (w : World)
    → ltb bulk_limit (length ids) ≡ false
    → bulk_toggle_archive env ids user archive w
      ≡ atomic
          (toggle_found env user archive (filter (is_selected ids user archive) w.db.records))
          w
unfolding bulk_toggle_archive
bulk-toggle_found env ids user archive w h = rw h refl

-- With at most 200 keys a bulk operation succeeds. It changes the user's own records of these keys
-- that are in the state to leave, and no other record, and returns their number, by which the audit
-- trail grows. Primary keys are unique.
pub bulk_toggle_archive_toggles :
    (env : Env) (ids : List ℕ) (user : User) (archive : Bool) (w : World)
    → ltb bulk_limit (length ids) ≡ false
    → KeysUnique (λ r. r.pk) w.db.records
    → let (result, w') = bulk_toggle_archive env ids user archive w in
      let n = length (filter (is_selected ids user archive) w.db.records) in
      (result ≡ ok n)
      × (w'.db.records
          ≡ update (is_selected ids user archive) (set_active (not archive)) w.db.records)
      × (length w'.db.audit ≡ n + length w.db.audit)
bulk_toggle_archive_toggles env ids user archive w h u =
    let selected = is_selected ids user archive in
    let found = filter selected w.db.records in
    let (result, rows, audit) = toggle_found-Toggles env user archive found w in
    ground (
      arith,
      bulk-toggle_found env ids user archive w h,
      result,
      rows,
      audit,
      found_update selected (set_active (not archive)) w.db.records u,
    )

-- A bulk operation on more than 200 keys is refused, and changes nothing.
pub bulk_toggle_archive_limit :
    (env : Env) (ids : List ℕ) (user : User) (archive : Bool) (w : World)
    → ltb bulk_limit (length ids) ≡ true
    → bulk_toggle_archive env ids user archive w ≡ (raised bulk_limit_exceeded, w)
unfolding bulk_toggle_archive
bulk_toggle_archive_limit env ids user archive w h = rw h refl
