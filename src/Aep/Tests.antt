-- ===== src/Aep/Tests.antt =====
-- Runs of the wire-level checks on concrete values.
use aep_go.Prelude.{
  Bool, List, Option, Text, [], arith, bytes, false, if◌then◌else◌, none, refl, some, ℕ, ◌*◌, ◌+◌,
  ◌==◌, ◌≡◌,
}
use aep_go.Prelude.Int64.{IsInt64, add64, leb_ℤ, ltb_ℤ, pos, sub64, wrap64, ◌+ℤ◌, ◌-ℤ◌}
use aep_go.Aep.Assertion.{
  VerifyOptions, Token, issued_deadline, exceeds_assertion_lifetime, expiry_deadline,
  verify_client_assertion, Url, key_id_identifies, validate_client_assertion_claims, checked_claims,
}
use aep_go.Aep.Assertion.Accepted.{verify_client_assertion-IsAccepted, IsAccepted}
use aep_go.Aep.Assertion.Window.{exceeds_assertion_lifetime_exact, expiry_deadline_exact}
use aep_go.Aep.Bytes.{index_byte, split}
use aep_go.Aep.Mailbox.{
  is_quoted_local_part, is_email_mailbox, is_local_part, is_mailbox_domain, mailbox_separator,
}
use aep_go.Aep.Mailbox.Shape.{IsMailbox, is_email_mailbox-IsMailbox}
use aep_go.Aep.Types.{
  ClientAssertionClaims, AssertionOperation, max_assertion_lifetime, operation_eq,
}
use aep_go.Aep.Issues.{validation_result}

-- Every address is taken for a host of the network, none for an IP literal.
abbrev no_ip : Text → Bool
no_ip _ = false

is_email_mailbox-IsMailbox_example : IsMailbox no_ip (bytes "ann@example.com")
unfolding is_email_mailbox is_local_part is_mailbox_domain mailbox_separator split
    is_quoted_local_part index_byte
is_email_mailbox-IsMailbox_example = is_email_mailbox-IsMailbox no_ip (bytes "ann@example.com") refl

exceeds_assertion_lifetime_exact_example :
    exceeds_assertion_lifetime (pos 100) (pos 401)
    ≡ ltb_ℤ (pos 100 +ℤ pos max_assertion_lifetime) (pos 401)
exceeds_assertion_lifetime_exact_example =
    exceeds_assertion_lifetime_exact (pos 100) (pos 401) (omega arith, omega arith)
      (omega arith, omega arith)

expiry_deadline_exact_example :
    leb_ℤ (pos 70) (expiry_deadline (pos 100) 30) ≡ leb_ℤ (pos 70) (pos 100 -ℤ pos 30)
expiry_deadline_exact_example =
    expiry_deadline_exact (pos 100) (pos 70) 30 (omega arith, omega arith)
      (omega arith, omega arith) (omega arith) (omega arith)

abbrev agent : Text
agent = bytes "did:web:a"

abbrev agent_claims : ClientAssertionClaims
agent_claims = record {
  audience = bytes "did:web:s";
  expires_at = pos 300;
  issued_at = pos 100;
  issuer = agent;
  jwt_id = bytes "1";
  operation = AssertionOperation.enroll;
  resource = [];
  subject = agent;
}

-- The toy signature scheme of these tests: the key 7 verifies every token.
abbrev toy_payload : Text → ℕ → Option ClientAssertionClaims
toy_payload assertion key = if key == 7 then some agent_claims else none

abbrev toy_token : Text → List Text → Option Token
toy_token assertion algorithms =
    some (record { signatures = 1; key_id = bytes "did:web:a#k"; token_type = some (bytes "JWT") })

abbrev no_url : Text → Option Url
no_url _ = none

abbrev toy_options : VerifyOptions ℕ
toy_options = record {
  algorithms = [];
  allow_insecure_loopback = false;
  audience = bytes "did:web:s";
  clock_tolerance = pos 30_000_000_000;
  current_time = (62_135_596_800 + 200) * 1_000_000_000;
  issuer = [];
  key = some 7;
  key_resolver = none;
  operation = some AssertionOperation.enroll;
  resource = [];
  subject = [];
}

toy_payload-IsInt64 :
    (token : Text) (key : ℕ) (payload : ClientAssertionClaims)
    → toy_payload token key ≡ some payload
    → IsInt64 payload.issued_at × IsInt64 payload.expires_at
toy_payload-IsInt64 token key payload e = ground arith

verify_client_assertion-IsAccepted_example :
    IsAccepted no_url toy_token toy_payload 5 toy_options (bytes "token") agent_claims
unfolding verify_client_assertion checked_claims validation_result validate_client_assertion_claims
    exceeds_assertion_lifetime sub64 wrap64 ◌-ℤ◌ add64 ◌+ℤ◌ key_id_identifies operation_eq
    issued_deadline expiry_deadline
verify_client_assertion-IsAccepted_example =
    verify_client_assertion-IsAccepted no_url toy_token toy_payload 5 toy_options (bytes "token")
      agent_claims toy_payload-IsInt64 (omega arith, omega arith) (omega arith) refl
