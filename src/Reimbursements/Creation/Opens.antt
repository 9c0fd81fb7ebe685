-- ===== src/Reimbursements/Creation/Opens.antt =====
-- What a new package is, and who may see its records (`create_reimbursement_package` of
-- reimbursements/services.py).
use papertrail.Base.{
  ◌≡◌, ◌≢◌, refl, sym, ap, subst, ◌∙◌, ℕ, ◌<◌, Bool, true, ◌&&◌, Option, some, List, ◌∷◌, map, ◌==◌,
  arith, ok, Result, Text, All, All-map, All-filter, KeysUnique, filter-filter_found, contains,
  filter, for_each, pure,
}
use papertrail.Database.{Db, World, Env}
use papertrail.Records.Model.{User, Record, not_expired}
use papertrail.Records.Shares.{is_visible_to}
use papertrail.Reimbursements.Model.{Package, is_open}
use papertrail.Reimbursements.Access.{active_records, grant_one, grant_to, grant_package_access}
use papertrail.Reimbursements.Package.{is_user}
use papertrail.Reimbursements.Settling.Frame.{grant_package_access-SameRest}
use papertrail.Reimbursements.Creation.{
  PackageDraft, drafted, insert_package, create_for, CreationOutcome, created, own_active_records,
  user_by_email, initial_status, create_with, create_reimbursement_package,
}
use papertrail.Reimbursements.Creation.Grants.{
  IsGrantable, AllGranted, HasGrant, all_granted, continue_ok,
}

own_active : List ℕ → User → Record → Bool
own_active record_ids creator r =
    contains r.pk record_ids && (r.user.pk == creator.pk && r.is_active)

found-IsGrantable :
    (p : Package) (u : User) (ids : List ℕ) (r : Record)
    → u.pk ≢ p.creator.pk
    → own_active ids p.creator r ≡ true
    → IsGrantable p u r
unfolding own_active
found-IsGrantable p u ids r other h = ground arith

HasGrant-is_visible_to :
    (env : Env) (r : Record) (u : User) (w : World)
    → HasGrant env.now r.pk u.pk w
    → is_visible_to env.now u.pk w.db.shares r ≡ true
unfolding is_visible_to
HasGrant-is_visible_to env r u w h = ground arith

-- The draft of a package for a registered recipient.
abbrev draft_for : User → User → Text → Text → ℕ → List Record → PackageDraft
draft_for creator u recipient_email title days_valid records = record {
  creator = creator;
  recipient = some u;
  title = title;
  records = records;
  days_valid = days_valid;
  recipient_email = recipient_email;
  status = initial_status (some u);
}

found_active :
    (ids : List ℕ) (creator : User) (records : List Record)
    → KeysUnique (λ r. r.pk) records
    → let found = filter (own_active ids creator) records in
      filter (λ r. contains r.pk (map (λ x. x.pk) found) && r.is_active) records ≡ found
unfolding own_active
found_active ids creator records u =
    filter-filter_found (λ r. r.pk) (own_active ids creator) (λ r. r.is_active) records
      (λ r h. ground arith) u

own_active_records_found :
    (ids : List ℕ) (creator : User) (d : Db)
    → own_active_records ids creator d ≡ filter (own_active ids creator) d.records
unfolding own_active_records own_active
own_active_records_found ids creator d = refl

-- The creation of a package for a registered recipient ends with the grants.
create_with-grants :
    (env : Env) (currency : Option Text) (creator u : User) (recipient_email title : Text)
    (days_valid : ℕ) (r : Record) (rs : List Record) (w : World)
    → let p =
        drafted env currency
          (draft_for creator u recipient_email title days_valid (r ∷ rs))
          w.db.next_pk in
      let w1 : World = record w { db = insert_package p w.db } in
      let (result, w') = grant_package_access env p w1 in
      result ≡ ok tt
      → create_with env currency creator (some u) recipient_email title days_valid (r ∷ rs) w
        ≡ (ok (created p), w')
unfolding create_with create_for
create_with-grants env currency creator u recipient_email title days_valid r rs w h =
    let p =
      drafted env currency (draft_for creator u recipient_email title days_valid (r ∷ rs))
        w.db.next_pk in
    let w1 : World = record w { db = insert_package p w.db } in
    continue_ok (grant_package_access env p w1).0 (grant_package_access env p w1).1
      (λ done. pure (created p)) tt h

-- What the grants of a package do, when its records are rows that its creator owns.
grant_package_access-AllGranted :
    (env : Env) (p : Package) (u : User) (ids : List ℕ) (w : World)
    → p.recipient ≡ some u
    → u.pk ≢ p.creator.pk
    → not_expired p.expires_at env.now ≡ true
    → active_records p w.db ≡ filter (own_active ids p.creator) w.db.records
    → AllGranted env u
        (filter (own_active ids p.creator) w.db.records)
        (grant_package_access env p w)
unfolding grant_package_access
grant_package_access-AllGranted env p u ids w e other live found =
    let own = own_active ids p.creator in
    let rows = filter own w.db.records in
    subst (λ m. AllGranted env u rows (grant_to env p m w)) (sym e)
      (subst (λ rs. AllGranted env u rows (for_each rs (grant_one env p u) w)) (sym found)
        (all_granted env p u rows w live (
          All-map rows (λ r h. found-IsGrantable p u ids r other h) (All-filter own w.db.records))))

create_reimbursement_package-create_with :
    (env : Env) (currency : Option Text) (creator u : User) (recipient_email title : Text)
    (ids : List ℕ) (days_valid : ℕ) (w : World)
    → user_by_email recipient_email w.db ≡ some u
    → u.pk ≢ creator.pk
    → create_reimbursement_package env currency creator recipient_email ids title days_valid w
      ≡ create_with env currency creator
          (some u)
          recipient_email
          title
          days_valid
          (own_active_records ids creator w.db)
          w
unfolding create_reimbursement_package is_user
create_reimbursement_package-create_with env currency creator u recipient_email title ids days_valid
      w e other =
    ground arith

-- A package of the records was created: it is open, it is added to the packages, and the recipient
-- may see every one of the records.
abbrev pub OpensFor :
    Env → User → List Record → List Package → Result CreationOutcome × World → Type 0
OpensFor env u records packages (result, w) =
    (p : Package) × (result ≡ ok (created p))
    × (is_open p.status ≡ true)
    × (p.records ≡ map (λ x. x.pk) records)
    × (w.db.packages ≡ p ∷ packages)
    × All (λ x. is_visible_to env.now u.pk w.db.shares x ≡ true) records

-- A creator sends records to the address of a registered user, who is someone else, for at least one
-- day. If an active record of the creator is among those selected, and no two records have one key,
-- then a package is created: it is open and is added to the packages, which are otherwise
-- unchanged, and the recipient may see each of those records.
pub create_reimbursement_package-is_visible_to :
    (env : Env) (currency : Option Text) (creator u : User) (recipient_email title : Text)
    (ids : List ℕ) (days_valid : ℕ) (r : Record) (rs : List Record) (w : World)
    → user_by_email recipient_email w.db ≡ some u
    → u.pk ≢ creator.pk
    → own_active_records ids creator w.db ≡ r ∷ rs
    → 0 < days_valid
    → KeysUnique (λ x. x.pk) w.db.records
    → OpensFor env u
        (own_active_records ids creator w.db)
        w.db.packages
        (create_reimbursement_package env currency creator recipient_email ids title days_valid w)
unfolding active_records initial_status own_active_records own_active
create_reimbursement_package-is_visible_to env currency creator u recipient_email title ids
      days_valid r rs w e other found days unique =
    let p =
      drafted env currency (draft_for creator u recipient_email title days_valid (r ∷ rs))
        w.db.next_pk in
    let w1 : World = record w { db = insert_package p w.db } in
    let found_rows : filter (own_active ids creator) w.db.records ≡ r ∷ rs =
      sym (own_active_records_found ids creator w.db) ∙ found in
    let same : active_records p w.db ≡ filter (own_active ids creator) w.db.records =
      subst
        (λ xs.
          filter (λ x. contains x.pk (map (λ y. y.pk) xs) && x.is_active) w.db.records
          ≡ filter (own_active ids creator) w.db.records)
        found_rows (found_active ids creator w.db.records unique) in
    let (done, grants) =
      grant_package_access-AllGranted env p u ids w1 refl other (ground (arith, days)) same in
    let rest = (grant_package_access-SameRest env p w1).0 in
    let grant = grant_package_access env p w1 in
    let steps =
      create_reimbursement_package-create_with env currency creator u recipient_email title ids
        days_valid w e other
      ∙ (ap (λ xs. create_with env currency creator (some u) recipient_email title days_valid xs w)
            found
          ∙ create_with-grants env currency creator u recipient_email title days_valid r rs w
              done) in
    subst (OpensFor env u (own_active_records ids creator w.db) w.db.packages) (sym steps) (
      p,
      refl,
      refl,
      ap (map (λ x. x.pk)) (sym found),
      ap (λ d. d.packages) rest,
      All-map (own_active_records ids creator w.db)
          (λ x h. HasGrant-is_visible_to env x u grant.1 h) grants,
    )
