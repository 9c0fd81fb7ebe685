-- ===== src/Records/Shares/Revocation.antt =====
-- What a revocation does to access, under the unique constraint on shares (records/shares.py).
use papertrail.Base.{
  ℕ, ◌≡◌, refl, ◌≢◌, ◌∙◌, Bool, true, false, some, List, [], ◌∷◌, arith, ok, inl, inr, Option-cases,
  Bool-cases, if◌then◌else◌, first, exists, update, exists-update, exists_narrow,
}
use papertrail.Database.{World, Env, create_audit_log}
use papertrail.Records.Model.{User, Record, RecordShare, share_is_active}
use papertrail.Records.Shares.{is_pair, has_pk, grants, can_share, revoke_share, is_visible_to}
use papertrail.Records.Shares.Access.{PairsUnique}

-- A change of the columns other than the pair.
abbrev pub KeepsPair : (RecordShare → RecordShare) → Type 0
KeepsPair f = (s : RecordShare) → ((f s).record_pk ≡ s.record_pk) × ((f s).user.pk ≡ s.user.pk)

pub is_pair_kept :
    (a b : ℕ) (f : RecordShare → RecordShare)
    → KeepsPair f
    → (s : RecordShare) → is_pair a b (f s) ≡ is_pair a b s
is_pair_kept a b f keep s = ground (arith, keep s)

grants_narrow : (now a b : ℕ) (s : RecordShare) → grants now a b s ≡ true → is_pair a b s ≡ true
grants_narrow now a b s h = ground arith

-- Where no row has the pair, no row grants it, whatever the other columns become.
no_grants :
    (now a b : ℕ) (q : RecordShare → Bool) (f : RecordShare → RecordShare)
    (shares : List RecordShare)
    → KeepsPair f
    → exists (is_pair a b) shares ≡ false
    → exists (grants now a b) (update q f shares) ≡ false
no_grants now a b q f shares keep h =
    exists_narrow (is_pair a b) (grants now a b) (update q f shares) (grants_narrow now a b)
      (exists-update (is_pair a b) q f shares (is_pair_kept a b f keep) ∙ h)

same_pair : (a b : ℕ) (s : RecordShare) → is_pair a b s ≡ true → (s.record_pk ≡ a) × (s.user.pk ≡ b)
same_pair a b s h = ground arith

-- The one row of the pair is made inactive, so nothing grants the pair.
unique_inactive :
    (now a b : ℕ) (q : RecordShare → Bool) (f : RecordShare → RecordShare) (s : RecordShare)
    (shares : List RecordShare)
    → KeepsPair f
    → PairsUnique shares
    → first (is_pair a b) shares ≡ some s
    → share_is_active now (if q s then f s else s) ≡ false
    → exists (grants now a b) (update q f shares) ≡ false
unfolding first exists update
unique_inactive now a b q f s [] keep u e h = cc
unique_inactive now a b q f s (x ∷ xs) keep (ux, u) e h = elim (Bool-cases (is_pair a b x)) [
  | inl p ↦
      let (ea, eb) = same_pair a b x p in
      ground (arith, no_grants now a b q f xs keep (rw (ea, eb) at ux))
  | inr p ↦ ground (arith, is_pair_kept a b f keep x, unique_inactive now a b q f s xs keep u)
]

abbrev pub revoked : ℕ → RecordShare → RecordShare
revoked now s = record s { revoked_at = some now }

revoked_inactive :
    (now pk : ℕ) (s : RecordShare)
    → s.pk ≡ pk
    → share_is_active now (if has_pk pk s then revoked now s else s) ≡ false
unfolding share_is_active
revoked_inactive now pk s h = ground arith

already_inactive :
    (now t : ℕ) (s : RecordShare) → s.revoked_at ≡ some t → share_is_active now s ≡ false
unfolding share_is_active
already_inactive now t s h = ground arith

-- No update of any row.
unique_inactive_now :
    (now a b : ℕ) (s : RecordShare) (shares : List RecordShare)
    → PairsUnique shares
    → first (is_pair a b) shares ≡ some s
    → share_is_active now s ≡ false
    → exists (grants now a b) shares ≡ false
unfolding first exists
unique_inactive_now now a b s [] u e h = cc
unique_inactive_now now a b s (x ∷ xs) (ux, u) e h = elim (Bool-cases (is_pair a b x)) [
  | inl p ↦
      let (ea, eb) = same_pair a b x p in
      ground (
        arith,
        exists_narrow (is_pair a b) (grants now a b) xs (grants_narrow now a b) (rw (ea, eb) at ux),
      )
  | inr p ↦ ground (arith, unique_inactive_now now a b s xs u)
]

-- Once the owner has revoked the row of a record and another user, the user no longer sees the
-- record, whether the row was active, expired or revoked before. There is at most one row for
-- each record and user.
pub revoke_share-is_visible_to :
    (env : Env) (r : Record) (actor : User) (s : RecordShare) (w : World)
    → r.user.pk ≡ actor.pk
    → s.user.pk ≢ r.user.pk
    → PairsUnique w.db.shares
    → first (is_pair r.pk s.user.pk) w.db.shares ≡ some s
    → let (result, w') = revoke_share env r actor s w in
      (result ≡ ok tt) × (is_visible_to env.now s.user.pk w'.db.shares r ≡ false)
unfolding revoke_share can_share is_visible_to create_audit_log
revoke_share-is_visible_to env r actor s w own other u e = elim (Option-cases s.revoked_at) [
  | inl no_time ↦ ground (
    arith,
    unique_inactive env.now r.pk s.user.pk (has_pk s.pk) (revoked env.now) s w.db.shares
        (λ x. (refl, refl)) u e (revoked_inactive env.now s.pk s refl),
  )
  | inr (t, et) ↦ ground (
    arith,
    unique_inactive_now env.now r.pk s.user.pk s w.db.shares u e (already_inactive env.now t s et),
  )
]
