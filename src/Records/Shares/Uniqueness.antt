-- ===== src/Records/Shares/Uniqueness.antt =====
-- The unique constraint on shares is kept, and a repeated grant changes nothing
-- (records/shares.py).
use papertrail.Base.{
  ◌≡◌, ◌≢◌, refl, ◌∙◌, Bool, true, false, some, List, [], ◌∷◌, arith, ok, inl, inr, if◌then◌else◌,
  Option-cases, Bool-cases, first, exists, update, exists-update, exists-first-none,
}
use papertrail.Database.{World, Env, create_audit_log}
use papertrail.Records.Model.{User, Record, RecordShare, share_is_active}
use papertrail.Records.Shares.{
  ShareConfig, is_pair, has_pk, reactivated, can_share, grant_access, revoke_share,
}
use papertrail.Records.Shares.Access.{PairsUnique}
use papertrail.Records.Shares.Revocation.{KeepsPair, is_pair_kept, revoked}

kept_head :
    (q : RecordShare → Bool) (f : RecordShare → RecordShare) (s : RecordShare)
    (shares : List RecordShare)
    → KeepsPair f
    → exists (is_pair s.record_pk s.user.pk) shares ≡ false
    → let s' = if q s then f s else s in
      exists (is_pair s'.record_pk s'.user.pk) (update q f shares) ≡ false
kept_head q f s shares keep h =
    let kept =
      exists-update (is_pair s.record_pk s.user.pk) q f shares
        (is_pair_kept s.record_pk s.user.pk f keep)
      ∙ h in
    elim (Bool-cases (q s)) [ inl e ↦ rw e (rw ((keep s).0, (keep s).1) kept) | inr e ↦ rw e kept ]

update-PairsUnique :
    (q : RecordShare → Bool) (f : RecordShare → RecordShare) (shares : List RecordShare)
    → KeepsPair f
    → PairsUnique shares
    → PairsUnique (update q f shares)
unfolding update
update-PairsUnique q f [] keep u = tt
update-PairsUnique q f (s ∷ shares) keep (us, u) =
    (kept_head q f s shares keep us, update-PairsUnique q f shares keep u)

-- Granting keeps at most one row for each record and user, on every branch.
pub grant_access-PairsUnique :
    (env : Env) (r : Record) (user requester : User) (config : ShareConfig) (w : World)
    → PairsUnique w.db.shares
    → PairsUnique (grant_access env r user requester config w).1.db.shares
unfolding grant_access create_audit_log
grant_access-PairsUnique env r user requester config w u =
    elim (Option-cases (first (is_pair r.pk user.pk) w.db.shares)) [
      | inl e ↦ ground (arith, exists-first-none (is_pair r.pk user.pk) w.db.shares e)
      | inr (s, e) ↦ ground (
        arith,
        update-PairsUnique (has_pk s.pk) (reactivated config requester) w.db.shares
            (λ x. (refl, refl)) u,
      )
    ]

pub revoke_share-PairsUnique :
    (env : Env) (r : Record) (actor : User) (s : RecordShare) (w : World)
    → PairsUnique w.db.shares
    → PairsUnique (revoke_share env r actor s w).1.db.shares
unfolding revoke_share create_audit_log
revoke_share-PairsUnique env r actor s w u =
    ground
      (arith, update-PairsUnique (has_pk s.pk) (revoked env.now) w.db.shares (λ x. (refl, refl)) u)

-- While a grant of the owner to another user is active, granting again returns its row, not as a
-- new one, and changes nothing.
pub grant_access_idempotent :
    (env : Env) (r : Record) (user requester : User) (config : ShareConfig) (s : RecordShare)
    (w : World)
    → r.user.pk ≡ requester.pk
    → user.pk ≢ r.user.pk
    → first (is_pair r.pk user.pk) w.db.shares ≡ some s
    → share_is_active env.now s ≡ true
    → grant_access env r user requester config w ≡ (ok (s, false), w)
unfolding grant_access can_share
grant_access_idempotent env r user requester config s w own other e live = ground arith
