-- ===== src/Reimbursements/Verification.antt =====
-- reimbursements/verification.py: one-time codes for payers without an account. The digest of a
-- salted code, and the random code itself, come from outside.
pub mod Codes
use papertrail.Base.{
  ℕ, ◌+◌, ◌-◌, Bool, true, false, not, ◌&&◌, Option, none, some, List, [], ◌∷◌, ◌==◌, ltb, leb,
  if◌then◌else◌, Text, text, text_eq, is_blank, lower, strip, pure, ◌>>=◌, ◌>>◌, first, update,
  exists,
}
use papertrail.Database.{Db, Env, M, modify_db, gets_db}
use papertrail.Reimbursements.Model.{Package, Verification, recipient_address}

-- Ten minutes.
abbrev pub code_ttl : ℕ
code_ttl = 600

abbrev pub max_attempts : ℕ
max_attempts = 5

unfoldable pub matches_recipient : Package → Text → Bool
matches_recipient p email =
    not (is_blank (recipient_address p))
    && text_eq (lower (recipient_address p)) (lower (strip email))

abbrev pub is_for : ℕ → Verification → Bool
is_for package_pk v = v.package_pk == package_pk

-- The messages of `verify_code`; the last one has the number of attempts that remain.
pub data CodeError : Type 0 where
  not_requested wrong_recipient code_expired too_many_attempts : CodeError
  incorrect : ℕ → CodeError

module _ (hash_code : Text → Text → Text) where
  unfoldable pub issued : Env → Package → Text → Text → Verification
  issued env p email code = record {
    package_pk = p.pk;
    email = lower (strip email);
    code_hash = hash_code code p.uuid;
    attempts = 0;
    expires_at = env.now + code_ttl;
    verified_at = none;
  }

  -- `update_or_create(package=package, defaults=...)`.
  unfoldable pub upsert : Verification → Db → Db
  upsert v d =
      if exists (is_for v.package_pk) d.verifications
      then record d { verifications = update (is_for v.package_pk) (λ _. v) d.verifications }
      else record d { verifications = v ∷ d.verifications }

  -- `send_verification_code`, with the code that `_generate_code` drew.
  unfoldable pub send_verification_code : Env → Package → Text → Text → M Bool
  unfolding issued upsert
  send_verification_code env p email code =
      if not (matches_recipient p email)
      then pure false
      else do modify_db (upsert (issued env p email code)); pure true

  abbrev save_verification : Package → (Verification → Verification) → M (Unit {0})
  save_verification p f =
      modify_db λ d. record d { verifications = update (is_for p.pk) f d.verifications }

  unfoldable pub check_code : Env → Package → Text → Text → Verification → M (Option CodeError)
  check_code env p email code v =
      if not (matches_recipient p email)
      then pure (some wrong_recipient)
      else if ltb v.expires_at env.now
      then pure (some code_expired)
      else if leb max_attempts v.attempts
      then pure (some too_many_attempts)
      else if not (text_eq v.code_hash (hash_code (strip code) p.uuid))
      then save_verification p (λ row. record row { attempts = v.attempts + 1 })
        >> pure (some (incorrect (max_attempts - (v.attempts + 1))))
      else save_verification p (λ row. record row { verified_at = some env.now; attempts = 0 })
        >> pure none

  unfoldable pub check_found :
      Env → Package → Text → Text → Option Verification → M (Option CodeError)
  unfolding check_code
  check_found env p email code none = pure (some not_requested)
  check_found env p email code (some v) = check_code env p email code v

  -- `verify_code`: `none` is success.
  unfoldable pub verify_code : Env → Package → Text → Text → M (Option CodeError)
  unfolding check_found
  verify_code env p email code = do
    found ← gets_db (λ d. first (is_for p.pk) d.verifications)
    check_found env p email code found
