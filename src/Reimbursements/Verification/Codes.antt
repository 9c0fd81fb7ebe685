-- ===== src/Reimbursements/Verification/Codes.antt =====
-- Which codes are accepted, and how many guesses there are (reimbursements/verification.py).
use papertrail.Base.{
  ◌≡◌, refl, ◌+◌, ◌≤◌, true, false, Option, none, some, List, [], ◌∷◌, ltb, leb, arith, ok, Text,
  text_eq, text_eq_refl, strip, length, All, inl, inr, Bool-cases, Option-cases, first, update,
  first-update, first_holds, exists-first-none, exists-first-some,
}
use papertrail.Database.{Db, World, Env}
use papertrail.Reimbursements.Model.{Package, Verification}
use papertrail.Reimbursements.Verification.{
  code_ttl, max_attempts, matches_recipient, is_for, too_many_attempts, issued, upsert,
  send_verification_code, check_code, check_found, verify_code,
}

module _ (hash_code : Text → Text → Text) where
  -- What lets a code pass.
  abbrev pub Accepts : Env → Package → Text → Text → Verification → Type 0
  Accepts env p email code v =
      (matches_recipient p email ≡ true)
      × (ltb v.expires_at env.now ≡ false)
      × (leb max_attempts v.attempts ≡ false)
      × (text_eq v.code_hash (hash_code (strip code) p.uuid) ≡ true)

  check_code_sound :
      (env : Env) (p : Package) (email code : Text) (v : Verification) (w : World)
      → (check_code hash_code env p email code v w).0 ≡ ok none
      → Accepts env p email code v
  unfolding check_code
  check_code_sound env p email code v w h = (ground arith, ground arith, ground arith, ground arith)

  check_found_sound :
      (env : Env) (p : Package) (email code : Text) (found : Option Verification) (w : World)
      → (check_found hash_code env p email code found w).0 ≡ ok none
      → (v : Verification) × (found ≡ some v) × Accepts env p email code v
  unfolding check_found
  check_found_sound env p email code none w h = cc
  check_found_sound env p email code (some v) w h =
      (v, refl, check_code_sound env p email code v w h)

  -- A code is accepted only if one was requested for the package, for this address, if it has not
  -- expired, if fewer than five guesses were made, and if its digest is the stored one.
  pub verify_code_sound :
      (env : Env) (p : Package) (email code : Text) (w : World)
      → (verify_code hash_code env p email code w).0 ≡ ok none
      → (v : Verification) × (first (is_for p.pk) w.db.verifications ≡ some v)
        × Accepts env p email code v
  unfolding verify_code
  verify_code_sound env p email code w h =
      check_found_sound env p email code (first (is_for p.pk) w.db.verifications) w h

  abbrev pub verify_all : Env → Package → Text → List Text → World → World
  verify_all env p email [] w = w
  verify_all env p email (g ∷ gs) w =
      verify_all env p email gs (verify_code hash_code env p email g w).1

  abbrev pub IsWrong : Package → Verification → Text → Type 0
  IsWrong p v g = text_eq v.code_hash (hash_code (strip g) p.uuid) ≡ false

  exhausted :
      (env : Env) (p : Package) (email code : Text) (v : Verification) (w : World)
      → matches_recipient p email ≡ true
      → ltb v.expires_at env.now ≡ false
      → first (is_for p.pk) w.db.verifications ≡ some v
      → leb max_attempts v.attempts ≡ true
      → verify_code hash_code env p email code w ≡ (ok (some too_many_attempts), w)
  unfolding verify_code check_found check_code
  exhausted env p email code v w m live e full = ground arith

  abbrev one_more : Verification → Verification
  one_more v = record v { attempts = v.attempts + 1 }

  missed :
      (env : Env) (p : Package) (email code : Text) (v : Verification) (w : World)
      → matches_recipient p email ≡ true
      → ltb v.expires_at env.now ≡ false
      → first (is_for p.pk) w.db.verifications ≡ some v
      → leb max_attempts v.attempts ≡ false
      → IsWrong p v code
      → first (is_for p.pk) (verify_code hash_code env p email code w).1.db.verifications
        ≡ some (one_more v)
  unfolding verify_code check_found check_code
  missed env p email code v w m live e few wrong = ground (
    arith,
    first_holds (is_for p.pk) w.db.verifications e,
    first-update (is_for p.pk) (is_for p.pk) (λ row. record row { attempts = v.attempts + 1 })
        w.db.verifications (λ x. refl),
  )

  -- While a code has not expired, and for the recipient's address: once the guesses made before
  -- and further wrong ones are five or more, no code is accepted, the right one included, and
  -- such a guess changes nothing.
  pub verify_code_locks :
      (env : Env) (p : Package) (email : Text) (v : Verification) (guesses : List Text)
      (code : Text) (w : World)
      → matches_recipient p email ≡ true
      → ltb v.expires_at env.now ≡ false
      → first (is_for p.pk) w.db.verifications ≡ some v
      → All (IsWrong p v) guesses
      → max_attempts ≤ v.attempts + length guesses
      → let w' = verify_all env p email guesses w in
        verify_code hash_code env p email code w' ≡ (ok (some too_many_attempts), w')
  verify_code_locks env p email v [] code w m live e wrong n =
      exhausted env p email code v w m live e (ground arith)
  verify_code_locks env p email v (g ∷ gs) code w m live e (wg, wrong) n =
      elim (Bool-cases (leb max_attempts v.attempts)) [
        | inl full ↦
            rw (exhausted env p email g v w m live e full)
              (verify_code_locks env p email v gs code w m live e wrong (ground arith))
        | inr few ↦
            verify_code_locks env p email (one_more v) gs code
              (verify_code hash_code env p email g w).1 m live
              (missed env p email g v w m live e few wg) wrong (ground arith)
      ]

  first-updated :
      (v : Verification) (rows : List Verification) (x : Verification)
      → first (is_for v.package_pk) rows ≡ some x
      → first (is_for v.package_pk) (update (is_for v.package_pk) (λ _. v) rows) ≡ some v
  unfolding first update
  first-updated v [] x e = cc
  first-updated v (r ∷ rows) x e = ground (arith, first-updated v rows x)

  first-upsert :
      (v : Verification) (d : Db)
      → first (is_for v.package_pk) (upsert hash_code v d).verifications ≡ some v
  unfolding upsert first
  first-upsert v d = elim (Option-cases (first (is_for v.package_pk) d.verifications)) [
    | inl e ↦ ground (arith, exists-first-none (is_for v.package_pk) d.verifications e)
    | inr (x, e) ↦ ground (
      arith,
      first_holds (is_for v.package_pk) d.verifications e,
      exists-first-some (is_for v.package_pk) (is_for v.package_pk) d.verifications x e,
      first-updated v d.verifications x e,
    )
  ]

  -- A code without blanks around it that was sent to the recipient's address is accepted within
  -- ten minutes, whatever codes and guesses came before.
  pub verify_code-send_verification_code :
      (env later : Env) (p : Package) (email code : Text) (w : World)
      → matches_recipient p email ≡ true
      → strip code ≡ code
      → later.now ≤ env.now + code_ttl
      → let (sent, w') = send_verification_code hash_code env p email code w in
        (sent ≡ ok true) × ((verify_code hash_code later p email code w').0 ≡ ok none)
  unfolding send_verification_code verify_code check_found check_code issued
  verify_code-send_verification_code env later p email code w m s live = ground (
    arith,
    first-upsert (issued hash_code env p email code) w.db,
    text_eq_refl (hash_code code p.uuid),
  )
