-- ===== src/Records/Shares/Access.antt =====
-- Who can grant and revoke, and what a grant and a revocation do to access (records/shares.py).
use papertrail.Base.{
  ◌≡◌, ◌≢◌, true, false, List, [], ◌∷◌, arith, raised, is_ok, not_owner, self_share, inl, inr,
  Option-cases, first, exists, exists-update-first, exists-first-some, first_holds,
}
use papertrail.Database.{World, Env, create_audit_log}
use papertrail.Records.Model.{User, Record, RecordShare, not_expired, share_is_active}
use papertrail.Records.Shares.{
  ShareConfig, is_pair, has_pk, reactivated, can_share, grant_access, is_visible_to, grants,
}

-- At most one row for each record and user, as the unique constraint has it.
abbrev pub PairsUnique : List RecordShare → Type 0
PairsUnique [] = Unit
PairsUnique (s ∷ shares) =
    (exists (is_pair s.record_pk s.user.pk) shares ≡ false) × PairsUnique shares

-- A grant requested by someone other than the record's owner is refused, and changes nothing.
pub grant_access_not_owner :
    (env : Env) (r : Record) (user requester : User) (config : ShareConfig) (w : World)
    → r.user.pk ≢ requester.pk
    → grant_access env r user requester config w ≡ (raised not_owner, w)
unfolding grant_access can_share
grant_access_not_owner env r user requester config w h = ground arith

-- An owner's grant to themselves is refused, and changes nothing.
pub grant_access_self :
    (env : Env) (r : Record) (user requester : User) (config : ShareConfig) (w : World)
    → r.user.pk ≡ requester.pk
    → user.pk ≡ r.user.pk
    → grant_access env r user requester config w ≡ (raised self_share, w)
unfolding grant_access can_share
grant_access_self env r user requester config w own same = ground arith

pub reactivated_is_active :
    (env : Env) (config : ShareConfig) (requester : User) (s : RecordShare)
    → not_expired config.expires_at env.now ≡ true
    → share_is_active env.now (reactivated config requester s) ≡ true
unfolding share_is_active
reactivated_is_active env config requester s live = live

-- A grant by the owner to another user, with no expiry or one that is still to come, succeeds and
-- gives access, whether the pair had no row, an active one, or one that was revoked or has
-- expired.
pub grant_access-is_visible_to :
    (env : Env) (r : Record) (user requester : User) (config : ShareConfig) (w : World)
    → r.user.pk ≡ requester.pk
    → user.pk ≢ r.user.pk
    → not_expired config.expires_at env.now ≡ true
    → let (result, w') = grant_access env r user requester config w in
      (is_ok result ≡ true) × (is_visible_to env.now user.pk w'.db.shares r ≡ true)
unfolding grant_access can_share is_visible_to create_audit_log
grant_access-is_visible_to env r user requester config w own other live =
    let pair = is_pair r.pk user.pk in
    let shares = w.db.shares in
    elim (Option-cases (first pair shares)) [
      | inl e ↦ unfold exists share_is_active in ground arith
      | inr (s, e) ↦ ground (
        arith,
        first_holds pair shares e,
        exists-first-some pair (grants env.now r.pk user.pk) shares s,
        exists-update-first pair (has_pk s.pk) (grants env.now r.pk user.pk)
            (reactivated config requester) shares s,
        reactivated_is_active env config requester s,
      )
    ]
