-- ===== src/Reimbursements/Creation/Grants.antt =====
-- What a new package gives its recipient (`create_reimbursement_package` of
-- reimbursements/services.py).
use papertrail.Base.{
  ◌≡◌, ◌≢◌, refl, sym, ap, subst, ℕ, Bool, true, ◌||◌, List, [], ◌∷◌, ◌==◌, arith, ok, is_ok,
  Result, raised, Keeps, Keeps-bind, Keeps-pure, Keeps-for_each, inl, inr, Bool-cases, Option-cases,
  All, first, exists, update, for_each,
}
use papertrail.Database.{World, Env, M, create_audit_log}
use papertrail.Records.Model.{User, Record, RecordShare, not_expired, share_is_active}
use papertrail.Records.Shares.{
  ShareConfig, is_pair, has_pk, reactivated, grant_access, is_visible_to, grants,
}
use papertrail.Records.Shares.Access.{grant_access-is_visible_to}
use papertrail.Reimbursements.Model.{Package}
use papertrail.Reimbursements.Access.{package_config, grant_one}

abbrev pub HasGrant : ℕ → ℕ → ℕ → World → Type 0
HasGrant now k u w = exists (grants now k u) w.db.shares ≡ true

exists_grow :
    (p q : RecordShare → Bool) (f : RecordShare → RecordShare) (xs : List RecordShare)
    → ((x : RecordShare) → p x ≡ true → p (f x) ≡ true)
    → exists p xs ≡ true
    → exists p (update q f xs) ≡ true
unfolding exists update
exists_grow p q f [] keep h = h
exists_grow p q f (x ∷ xs) keep h = elim (Bool-cases (q x)) [
  | inl e ↦ elim (Bool-cases (p x)) [
    | inl t ↦ ground (arith, keep x t)
    | inr t ↦ ground (arith, exists_grow p q f xs keep)
  ]
  | inr e ↦ ground (arith, exists_grow p q f xs keep)
]

reactivated-grants :
    (env : Env) (config : ShareConfig) (requester : User) (k u : ℕ) (s : RecordShare)
    → not_expired config.expires_at env.now ≡ true
    → grants env.now k u s ≡ true
    → grants env.now k u (reactivated config requester s) ≡ true
unfolding share_is_active
reactivated-grants env config requester k u s live h = ground arith

-- A grant takes away no other.
grant_access-HasGrant :
    (env : Env) (r : Record) (user requester : User) (config : ShareConfig) (k u : ℕ) (w : World)
    → not_expired config.expires_at env.now ≡ true
    → HasGrant env.now k u w
    → HasGrant env.now k u (grant_access env r user requester config w).1
unfolding grant_access create_audit_log
grant_access-HasGrant env r user requester config k u w live h =
    let pair = is_pair r.pk user.pk in
    elim (Option-cases (first pair w.db.shares)) [
      | inl e ↦ unfold exists in ground arith
      | inr (s, e) ↦ ground (
        arith,
        exists_grow (grants env.now k u) (has_pk s.pk) (reactivated config requester) w.db.shares
            (λ x. reactivated-grants env config requester k u x live),
      )
    ]

grant_one-Keeps :
    (env : Env) (p : Package) (recipient : User) (r : Record) (k u : ℕ)
    → not_expired p.expires_at env.now ≡ true
    → Keeps (HasGrant env.now k u) (grant_one env p recipient r)
unfolding grant_one package_config
grant_one-Keeps env p recipient r k u live =
    Keeps-bind (grant_access env r recipient p.creator (package_config p)) _
      (record {
        at = λ w h. grant_access-HasGrant env r recipient p.creator (package_config p) k u w live h;
      })
      (λ done. Keeps-pure tt)

done_after :
    {A : Type 0} (r : Result A) (w : World)
    → is_ok r ≡ true
    → elim r as (λ _. Result (Unit {0}) × World) [ ok a ↦ (ok tt, w) | raised e ↦ (raised e, w) ]
      ≡ (ok tt, w)
done_after (ok a) w h = refl
done_after (raised e) w h = cc

grant_one-ok :
    (env : Env) (p : Package) (recipient : User) (r : Record) (w : World)
    → let (result, w') = grant_access env r recipient p.creator (package_config p) w in
      is_ok result ≡ true → grant_one env p recipient r w ≡ (ok tt, w')
unfolding grant_one
grant_one-ok env p recipient r w h = done_after _ _ h

has_grant :
    (now k u owner : ℕ) (shares : List RecordShare)
    → u ≢ owner
    → (owner == u || exists (grants now k u) shares) ≡ true
    → exists (grants now k u) shares ≡ true
has_grant now k u owner shares other h = ground arith

-- Whose records a package may hold, and who its recipient may be.
abbrev pub IsGrantable : Package → User → Record → Type 0
IsGrantable p recipient r = (r.user.pk ≡ p.creator.pk) × (recipient.pk ≢ r.user.pk)

grant_one-HasGrant :
    (env : Env) (p : Package) (recipient : User) (r : Record) (w : World)
    → not_expired p.expires_at env.now ≡ true
    → IsGrantable p recipient r
    → let (result, w') = grant_one env p recipient r w in
      (result ≡ ok tt) × HasGrant env.now r.pk recipient.pk w'
unfolding package_config is_visible_to
grant_one-HasGrant env p recipient r w live (own, other) =
    let (done, visible) =
      grant_access-is_visible_to env r recipient p.creator (package_config p) w own other live in
    rw (grant_one-ok env p recipient r w done)
      (refl, has_grant env.now r.pk recipient.pk r.user.pk _ other visible)

pub continue_ok :
    {A B : Type 0} (r : Result A) (w : World) (k : A → M B) (a : A)
    → r ≡ ok a
    → elim r as (λ _. Result B × World) [ ok b ↦ k b w | raised e ↦ (raised e, w) ] ≡ k a w
continue_ok {A} {B} r w k a e =
    ap (λ r. elim r as (λ _. Result B × World) [ ok b ↦ k b w | raised e ↦ (raised e, w) ]) e

for_each-cons :
    {A : Type 0} (x : A) (xs : List A) (body : A → M (Unit {0})) (w : World)
    → (body x w).0 ≡ ok tt
    → for_each (x ∷ xs) body w ≡ for_each xs body (body x w).1
unfolding for_each
for_each-cons x xs body w e = continue_ok (body x w).0 (body x w).1 (λ _. for_each xs body) tt e

-- A run that succeeds and leaves every record granted.
abbrev pub AllGranted : Env → User → List Record → Result (Unit {0}) × World → Type 0
AllGranted env recipient rs (result, w) =
    (result ≡ ok tt) × All (λ r. HasGrant env.now r.pk recipient.pk w) rs

pub all_granted :
    (env : Env) (p : Package) (recipient : User) (rs : List Record) (w : World)
    → not_expired p.expires_at env.now ≡ true
    → All (IsGrantable p recipient) rs
    → AllGranted env recipient rs (for_each rs (grant_one env p recipient) w)
unfolding for_each
all_granted env p recipient [] w live h = (refl, tt)
all_granted env p recipient (r ∷ rs) w live (g, gs) =
    let body = grant_one env p recipient in
    let (done, has) = grant_one-HasGrant env p recipient r w live g in
    let (rest_done, rest) = all_granted env p recipient rs (body r w).1 live gs in
    let kept =
      Keeps-for_each {P = HasGrant env.now r.pk recipient.pk} rs body
        λ x. grant_one-Keeps env p recipient x r.pk recipient.pk live in
    subst (AllGranted env recipient (r ∷ rs)) (sym (for_each-cons r rs body w done))
      (rest_done, (kept.at (body r w).1 has, rest))
