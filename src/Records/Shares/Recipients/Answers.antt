-- ===== src/Records/Shares/Recipients/Answers.antt =====
-- What becomes of the mail addresses that a record is shared with (records/shares.py).
use papertrail.Base.{
  ◌≡◌, refl, sym, subst, inl, inr, ℕ, Bool, true, false, ◌&&◌, ◌||◌, none, List, [], ◌∷◌, ◌==◌,
  arith, Text, Result, ok, raised, self_share, is_ok, Option-cases, Bool-cases, All, pure, ◌>>=◌,
  exists, first, Keeps, Keeps-bind, Keeps-pure,
}
use papertrail.Database.{World, Env, M, create_audit_log}
use papertrail.Records.Model.{User, Record, RecordShare, not_expired}
use papertrail.Records.Shares.{
  ShareConfig, is_pair, has_pk, reactivated, grant_access, is_visible_to, grants,
}
use papertrail.Records.Shares.Access.{grant_access-is_visible_to, reactivated_is_active}
use papertrail.Records.Shares.Recipients.{
  email_set, resolve_recipients, validate_recipients, add_created, grant_and_notify_shares,
  share_record_with_users,
}
use papertrail.Records.Shares.Recipients.Resolved.{
  has_address, is_key, entered, email_set-entered, resolve_each-exists,
}
use papertrail.Base.{exists-update_wide, exists-All}

-- A result that was returned, and what holds of the world it came with.
abbrev pub Returned : {A : Type 0} → (A → World → Type 0) → Result A × World → Type 0
Returned Q (ok a, w) = Q a w
Returned Q (raised e, w) = true ≡ false

Returned-after :
    {A B : Type 0} (P : A → World → Type 0) (Q : B → World → Type 0) (r : Result A) (w : World)
    (f : A → M B)
    → Returned P (r, w)
    → ((a : A) → P a w → Returned Q (f a w))
    → Returned Q (elim r as (λ _. Result B × World) [ ok a ↦ f a w | raised e ↦ (raised e, w) ])
Returned-after P Q (ok a) w f h k = k a h
Returned-after P Q (raised e) w f h k = cc

Returned-at :
    {A B : Type 0} (Q : B → World → Type 0) (m : M A) (f : A → M B) (a : A) (w w' : World)
    → m w ≡ (ok a, w')
    → Returned Q (f a w')
    → Returned Q ((m >>= f) w)
Returned-at {A = A} {B = B} Q m f a w w' h =
    subst
      (λ (v : Result A × World).
        Returned Q
          (elim v.0 as (λ _. Result B × World) [ ok x ↦ f x v.1 | raised e ↦ (raised e, v.1) ]))
      (sym h)

is_ok-Returned :
    {A : Type 0} (P : World → Type 0) (r : Result A) (w : World)
    → is_ok r ≡ true
    → P w
    → Returned (λ a. P) (r, w)
is_ok-Returned P (ok a) w h p = p
is_ok-Returned P (raised e) w h p = cc

Returned-kept :
    {A : Type 0} (P : World → Type 0) (Q : A → World → Type 0) (r : Result A) (w : World)
    → P w
    → Returned Q (r, w)
    → Returned (λ a w'. P w' × Q a w') (r, w)
Returned-kept P Q (ok a) w p h = (p, h)
Returned-kept P Q (raised e) w p h = h

module _ (env : Env) (r : Record) (owner : User) (config : ShareConfig) where
  Sees : World → User → Type 0
  Sees w u = is_visible_to env.now u.pk w.db.shares r ≡ true

  abbrev is_owner : User → Bool
  is_owner u = u.pk == r.user.pk

  validate_recipients_others :
      (us : List User)
      → exists is_owner us ≡ false
      → (w : World) → validate_recipients us r w ≡ (ok tt, w)
  unfolding validate_recipients exists
  validate_recipients_others [] h w = refl
  validate_recipients_others (u ∷ us) h w = elim (Bool-cases (is_owner u)) [
    | inl e ↦ ground arith
    | inr e ↦ rw e (validate_recipients_others us (ground arith) w)
  ]

  validate_recipients_owner :
      (us : List User)
      → exists is_owner us ≡ true
      → (w : World) → validate_recipients us r w ≡ (raised self_share, w)
  unfolding validate_recipients exists
  validate_recipients_owner [] h w = cc
  validate_recipients_owner (u ∷ us) h w = elim (Bool-cases (is_owner u)) [
    | inl e ↦ rw e refl
    | inr e ↦ rw e (validate_recipients_owner us (ground arith) w)
  ]

  module _ (live : not_expired config.expires_at env.now ≡ true) where
    grants-reactivated :
        (record_pk user_pk : ℕ) (s : RecordShare)
        → grants env.now record_pk user_pk s ≡ true
        → grants env.now record_pk user_pk (reactivated config owner s) ≡ true
    grants-reactivated record_pk user_pk s h =
        ground (arith, reactivated_is_active env config owner s live)

    grant_access-Keeps : (u v : User) → Keeps (λ w. Sees w u) (grant_access env r v owner config)
    unfolding grant_access create_audit_log Sees is_visible_to exists
    grant_access-Keeps u v = record {
      at = λ w h. elim (Option-cases (first (is_pair r.pk v.pk) w.db.shares)) [
        | inl e ↦ ground arith
        | inr (s, e) ↦ ground (
          arith,
          exists-update_wide (grants env.now r.pk u.pk) (has_pk s.pk) (reactivated config owner)
              w.db.shares (grants-reactivated r.pk u.pk),
        )
      ];
    }

    grant_and_notify_shares-Keeps :
        (u : User) (us : List User)
        → Keeps (λ w. Sees w u) (grant_and_notify_shares env us r owner config)
    unfolding grant_and_notify_shares
    grant_and_notify_shares-Keeps u [] = Keeps-pure []
    grant_and_notify_shares-Keeps u (v ∷ vs) =
        Keeps-bind (grant_access env r v owner config)
          (λ granted. grant_and_notify_shares env vs r owner config >>= λ rest.
            pure (add_created granted rest))
          (grant_access-Keeps u v)
          λ granted.
            Keeps-bind (grant_and_notify_shares env vs r owner config)
              (λ rest. pure (add_created granted rest)) (grant_and_notify_shares-Keeps u vs)
              λ rest. Keeps-pure (add_created granted rest)

    module _ (own : r.user.pk ≡ owner.pk) where
      grant_access-Returned :
          (u : User) (w : World)
          → is_owner u ≡ false
          → Returned (λ granted w'. Sees w' u) (grant_access env r u owner config w)
      unfolding Sees
      grant_access-Returned u w other =
          let (granted, sees) =
            grant_access-is_visible_to env r u owner config w own
              (λ same. ground (arith, same, other)) live in
          let done = grant_access env r u owner config w in
          is_ok-Returned (λ w'. Sees w' u) done.0 done.1 granted sees

      grant_and_notify_shares-Returned :
          (us : List User) (w : World)
          → exists is_owner us ≡ false
          → Returned
              (λ shares w'. All (Sees w') us)
              (grant_and_notify_shares env us r owner config w)
      unfolding grant_and_notify_shares exists
      grant_and_notify_shares-Returned [] w h = tt
      grant_and_notify_shares-Returned (u ∷ us) w h =
          let done = grant_access env r u owner config w in
          let after = grant_and_notify_shares env us r owner config in
          Returned-after (λ granted w'. Sees w' u) (λ shares w'. All (Sees w') (u ∷ us)) done.0
            done.1 (λ granted. after >>= λ rest. pure (add_created granted rest))
            (grant_access-Returned u w (ground arith))
            λ granted sees.
              Returned-after (λ rest w'. Sees w' u × All (Sees w') us)
                (λ shares w'. All (Sees w') (u ∷ us)) (after done.1).0 (after done.1).1
                (λ rest. pure (add_created granted rest))
                (Returned-kept (λ w'. Sees w' u) (λ rest w'. All (Sees w') us) (after done.1).0
                  (after done.1).1 ((grant_and_notify_shares-Keeps u us).at done.1 sees)
                  (grant_and_notify_shares-Returned us done.1 (ground arith)))
                λ rest all. all

      -- When the owner shares a record, with no expiry or one that is still to come, and no
      -- account that the addresses resolve to is the owner's, the sharing returns, and each
      -- address that was entered, up to case and the space around it, is answered: it is
      -- reported as unknown, or an account with that address now sees the record.
      pub share_record_with_users-Answered :
          (emails : List Text) (key : Text) (w : World)
          → exists is_owner (resolve_recipients emails w.db).0 ≡ false
          → exists (entered key) emails ≡ true
          → Returned
              (λ (shares, unknown) w'.
                let sees =
                  λ (u : User). has_address key u && is_visible_to env.now u.pk w'.db.shares r in
                (exists sees (resolve_recipients emails w.db).0 || exists (is_key key) unknown)
                ≡ true)
              (share_record_with_users env r owner emails config none w)
      unfolding share_record_with_users resolve_recipients Sees
      share_record_with_users-Answered emails key w others listed =
          let (recipients, unknown) = resolve_recipients emails w.db in
          let granting = grant_and_notify_shares env recipients r owner config in
          let answered =
            resolve_each-exists key w.db.users (email_set emails)
              (email_set-entered key emails listed) in
          let Answered = λ (found : List RecordShare × List Text) (w' : World).
            let sees =
              λ (u : User). has_address key u && is_visible_to env.now u.pk w'.db.shares r in
            (exists sees recipients || exists (is_key key) found.1) ≡ true in
          Returned-at Answered (validate_recipients recipients r)
            (λ valid. granting >>= λ shares. pure (shares, unknown)) tt w w
            (validate_recipients_others recipients others w)
            (Returned-after (λ shares w'. All (Sees w') recipients) Answered (granting w).0
              (granting w).1 (λ shares. pure (shares, unknown))
              (grant_and_notify_shares-Returned recipients w others)
              λ shares all. ground (
                arith,
                answered,
                exists-All (has_address key)
                    (λ u. is_visible_to env.now u.pk (granting w).1.db.shares r) recipients,
                all,
              ))
