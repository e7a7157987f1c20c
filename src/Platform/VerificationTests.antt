-- ===== src/Platform/VerificationTests.antt =====
-- Runs of the hosted verification of a Platform on concrete values.
use aep_go.Prelude.{Outcome, Text, [], arith, bytes, ok, refl, ℕ, ◌<◌, ◌≡◌, ◌≢◌}
use aep_go.Platform.Replay.{consume_all}
use aep_go.Prelude.Int64.{add64, pos, sub64, wrap64, ◌+ℤ◌, ◌-ℤ◌}
use aep_go.Aep.Assertion.{
  issued_deadline, exceeds_assertion_lifetime, expiry_deadline, key_id_identifies,
  validate_client_assertion_claims, verify_client_assertion, checked_claims,
}
use aep_go.Aep.Issues.{validation_result}
use aep_go.Aep.Responses.{Reply}
use aep_go.Aep.Types.{AssertionOperation, ClientAssertionClaims, operation_eq}
use aep_go.Platform.Config.{Hosting}
use aep_go.Platform.Operations.Verify.{verify_options, verify_run, from_unix, verified_response}
use aep_go.Platform.Operations.Verify.Once.{
  HasClaims, verified_once, IsVerified, verify_run-IsVerified,
}
use aep_go.Platform.Operations.Verify.Verified.{SaysVerified}
use aep_go.Platform.Sample.{
  toy_platform, toy_verification, platform_now, no_named, toy_context, toy_signed, toy_parse_signed,
  toy_identity, toy_hosting,
}
use aep_go.Platform.Types.{VerificationResponse}
use aep_go.Service.Sample.{toy_lib}

abbrev claims_of : Text → ClientAssertionClaims
claims_of assertion = record {
  audience = bytes "did:web:s";
  expires_at = pos 300;
  issued_at = pos 200;
  issuer = bytes "did:web:h:agents:a";
  jwt_id = assertion;
  operation = AssertionOperation.enroll;
  resource = [];
  subject = bytes "did:web:h:agents:a";
}

accepted_j :
    verify_client_assertion toy_lib.parse_url toy_parse_signed toy_signed platform_now
      (verify_options toy_identity (toy_verification (bytes "j")) 7 platform_now)
      (bytes "j")
    ≡ ok (claims_of (bytes "j"))
unfolding verify_client_assertion verify_options checked_claims validation_result
    validate_client_assertion_claims exceeds_assertion_lifetime sub64 wrap64 ◌-ℤ◌ add64 ◌+ℤ◌
    key_id_identifies operation_eq issued_deadline expiry_deadline
accepted_j = refl

accepted_i :
    verify_client_assertion toy_lib.parse_url toy_parse_signed toy_signed platform_now
      (verify_options toy_identity (toy_verification (bytes "i")) 7 platform_now)
      (bytes "i")
    ≡ ok (claims_of (bytes "i"))
unfolding verify_client_assertion verify_options checked_claims validation_result
    validate_client_assertion_claims exceeds_assertion_lifetime sub64 wrap64 ◌-ℤ◌ add64 ◌+ℤ◌
    key_id_identifies operation_eq issued_deadline expiry_deadline
accepted_i = refl

abbrev verifying : Text → Hosting ℕ → Outcome (Reply VerificationResponse) × Hosting ℕ
verifying assertion s =
    verify_run toy_lib toy_platform no_named toy_parse_signed toy_signed toy_identity
      toy_identity.agent_did (toy_verification assertion) toy_context s

abbrev verified_reply : Text → Reply VerificationResponse
verified_reply assertion = verified_response toy_identity (toy_verification assertion)

verifies : (verifying (bytes "j") toy_hosting).0 ≡ ok (verified_reply (bytes "j"))
unfolding verify_run checked_claims validation_result validate_client_assertion_claims
    exceeds_assertion_lifetime sub64 wrap64 ◌-ℤ◌ add64 ◌+ℤ◌ key_id_identifies operation_eq
    issued_deadline expiry_deadline
verifies = refl

verifies_another :
    (verifying (bytes "i") (verifying (bytes "j") toy_hosting).1).0
    ≡ ok (verified_reply (bytes "i"))
unfolding verify_run checked_claims validation_result validate_client_assertion_claims
    exceeds_assertion_lifetime sub64 wrap64 ◌-ℤ◌ add64 ◌+ℤ◌ key_id_identifies operation_eq
    issued_deadline expiry_deadline
verifies_another = refl

says_verified : (assertion : Text) → SaysVerified (verified_reply assertion)
unfolding verified_response
says_verified assertion = (_, refl, refl)

verify_run-IsVerified_example :
    IsVerified toy_lib toy_platform no_named toy_parse_signed toy_signed toy_identity
      toy_identity.agent_did
      (toy_verification (bytes "j"))
      toy_context
      toy_hosting
      (verifying (bytes "j") toy_hosting).1.replays
      (verified_reply (bytes "j"))
verify_run-IsVerified_example =
    verify_run-IsVerified toy_lib toy_platform no_named toy_parse_signed toy_signed toy_identity
      toy_identity.agent_did (toy_verification (bytes "j")) toy_context toy_hosting
      (verified_reply (bytes "j")) verifies (says_verified (bytes "j"))

abbrev after_j : Hosting ℕ
after_j = (verifying (bytes "j") toy_hosting).1

reads_j :
    HasClaims toy_lib toy_platform no_named toy_parse_signed toy_signed toy_identity
      (toy_verification (bytes "j"))
      toy_context
      toy_hosting
      (claims_of (bytes "j"))
reads_j = record { key = 7; key_of_identity = refl; accepted = accepted_j }

reads_i :
    HasClaims toy_lib toy_platform no_named toy_parse_signed toy_signed toy_identity
      (toy_verification (bytes "i"))
      toy_context
      after_j
      (claims_of (bytes "i"))
unfolding verify_run
reads_i = record { key = 7; key_of_identity = refl; accepted = accepted_i }

before_expiry : platform_now < from_unix (pos 300)
unfolding add64 wrap64 ◌+ℤ◌
before_expiry = omega arith

verified_once_example : bytes "i" ≢ bytes "j"
unfolding consume_all verify_run
verified_once_example =
    verified_once toy_lib toy_platform no_named toy_parse_signed toy_signed toy_identity
      toy_identity toy_identity.agent_did (toy_verification (bytes "j"))
      (toy_verification (bytes "i")) toy_context toy_context toy_hosting after_j []
      (verified_reply (bytes "j")) (verified_reply (bytes "i")) (claims_of (bytes "j"))
      (claims_of (bytes "i")) reads_j verifies (says_verified (bytes "j")) refl reads_i
      verifies_another (says_verified (bytes "i")) tt before_expiry refl refl
