-- ===== src/Reimbursements/Tests/Codes.antt =====
-- One-time codes, with a digest that joins the code and the package's uuid.
use papertrail.Base.{
  ◌≡◌, refl, true, none, some, [], ◌∷◌, ◌++◌, text, text_eq, Text, ok, first, strip, lower, arith,
}
use papertrail.Database.{World}
use papertrail.Reimbursements.Model.{Verification, recipient_address}
use papertrail.Reimbursements.Verification.{
  matches_recipient, too_many_attempts, send_verification_code, verify_code,
}
use papertrail.Reimbursements.Verification.Codes.{
  verify_all, verify_code_locks, verify_code-send_verification_code,
}
use papertrail.Reimbursements.Tests.{payer, trip, start, world, env, busy}

abbrev digest : Text → Text → Text
digest code uuid = code ++ uuid

abbrev requested : Verification
requested = record {
  package_pk = 1;
  email = payer.email;
  code_hash = text "123456u-1";
  attempts = 2;
  expires_at = 600;
  verified_at = none;
}

abbrev asked : World
asked = record world { db = record start { verifications = requested ∷ [] } }

verify_code_locks_example :
    let w' = verify_all digest env trip payer.email (text "1" ∷ text "2" ∷ text "3" ∷ []) asked in
    verify_code digest env trip payer.email (text "123456") w' ≡ (ok (some too_many_attempts), w')
unfolding matches_recipient recipient_address lower strip text_eq first
verify_code_locks_example =
    verify_code_locks digest env trip payer.email requested (text "1" ∷ text "2" ∷ text "3" ∷ [])
      (text "123456") asked refl refl refl (refl, (refl, (refl, tt))) (omega arith)

verify_code-send_verification_code_example :
    let (sent, w') = send_verification_code digest env trip payer.email (text "654321") asked in
    (sent ≡ ok true) × ((verify_code digest busy trip payer.email (text "654321") w').0 ≡ ok none)
unfolding matches_recipient recipient_address lower strip text_eq
verify_code-send_verification_code_example =
    verify_code-send_verification_code digest env busy trip payer.email (text "654321") asked refl
      refl (omega arith)
