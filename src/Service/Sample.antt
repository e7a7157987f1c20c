-- ===== src/Service/Sample.antt =====
-- A small Service, with its collaborators and a state, for the tests.
use aep_go.Prelude.{
  Outcome, Text, [], bytes, empty, err, error, false, length, none, ok, put, some, suc, true, ℕ,
  ◌*◌, ◌+◌, ◌∷◌,
}
use aep_go.Prelude.Int64.{pos}
use aep_go.Aep.Types.{
  ClaimValues, ClientAssertionClaims, GrantRequest, EnrollRequest, EnrollmentStatus, AgentStatus,
  AssertionOperation,
}
use aep_go.Service.Types.{EnrollmentRecord, CommandOptions}
use aep_go.Service.Config.{Service, Handler, Core}
use aep_go.Aep.Codec.{Stdlib}

abbrev pub no_claims : ClaimValues
no_claims = record {
  contact_address_primary = none;
  contact_email = none;
  contact_mobile = none;
  person_birthdate = none;
  person_first_name = none;
  person_last_name = none;
  person_username = none;
  additional = empty;
}

abbrev pub failing : {A : Type 0} → Text → Outcome A
failing _ = err (error "not used")

-- Every claim set is encoded as the empty object, and nothing else is encoded.
abbrev pub toy_lib : Stdlib
toy_lib = record {
  marshal_claims = λ _. ok (bytes "{}");
  decode_claims = λ _. ok no_claims;
  unmarshal_members = failing;
  marshal_members = λ _. ok (bytes "{}");
  decode_enroll_request = failing;
  decode_grant_request = failing;
  decode_revoke_request = failing;
  marshal_enroll_request = λ _. ok (bytes "{}");
  marshal_grant_request = λ _. ok (bytes "{}");
  marshal_revoke_request = λ _. ok (bytes "{}");
  decode_enroll_response = failing;
  marshal_enroll_response = λ _. ok (bytes "{}");
  decode_problem = failing;
  marshal_problem = λ _. ok (bytes "{}");
  decode_revoke_response = failing;
  format_rfc3339 = λ _. bytes "2026-01-01T00:00:00Z";
  trim_space = λ t. t;
  decode_value = failing;
  unmarshal_object = λ _. ok (some (put (bytes "credential_id") (bytes "c") empty));
  unmarshal_string = λ t. ok t;
  rune_count = λ t. length t;
  decode_jwt = λ _. some (record {
    algorithm = some (bytes "EdDSA");
    type_value = some (bytes "JWT");
    key_id = some (bytes "did:web:a#k");
  });
  parse_url = λ _. none;
  canonical = λ t. ok t;
  sha256 = λ t. t;
  marshal_raw = λ t. ok t;
  parses_ip = λ _. false;
  parses_date = λ _. true;
  parses_time = λ _. true;
}

abbrev pub toy_claims : ClientAssertionClaims
toy_claims = record {
  audience = bytes "did:web:s";
  expires_at = pos 300;
  issued_at = pos 100;
  issuer = bytes "did:web:a";
  jwt_id = bytes "1";
  operation = AssertionOperation.grant;
  resource = [];
  subject = bytes "did:web:a";
}

-- The handler counts the credentials that it issues.
abbrev pub toy_handler : Handler ℕ
toy_handler = record {
  grant_type = bytes "api-key";
  supports_per_credential_revoke = bytes "true";
  grant = λ request context n. (ok (bytes "{}"), suc n);
  revoke = λ request context n. (ok tt, n);
}

abbrev pub toy_now : ℕ
toy_now = (62_135_596_800 + 200) * 1_000_000_000

abbrev pub toy_service : Service ℕ
toy_service = record {
  supports_documents = true;
  allow_insecure_loopback = false;
  clock_skew = 30_000_000_000;
  maximum_lifetime = 300_000_000_000;
  claim_value_limits = record {
    max_encoded_bytes = 65_536;
    max_member_count = 128;
    max_object_depth = 8;
    max_string_length = 4_096;
  };
  service_did = bytes "did:web:s";
  identity_methods = bytes "did:web" ∷ [];
  signing_algorithms = bytes "EdDSA" ∷ bytes "ES256" ∷ [];
  required_claims = none;
  service_documents = record { id = bytes "terms"; enrollment = bytes "required" } ∷ [];
  handlers = toy_handler ∷ [];
  verifier = λ assertion context n. (ok toy_claims, n);
  decide_enrollment = λ request now n. (
    ok (record {
      update_existing = none;
      owner_action_required = none;
      requirements_pending = none;
      status = EnrollmentStatus.unset;
      verification_pending = none;
    }),
    n,
  );
  identifier = λ n. (ok (bytes "e1"), n);
  clock = λ n. (toy_now, n);
  cancelled = λ n. none;
}

abbrev pub toy_record : EnrollmentRecord
toy_record = record {
  acknowledged_document_ids = bytes "terms" ∷ [];
  required_document_ids = [];
  agent_did = bytes "did:web:a";
  claims = none;
  created_at = 5;
  enrollment_id = bytes "e1";
  owner_action_required = false;
  requirements_pending = [];
  since = 5;
  status = AgentStatus.active;
  updated_at = 5;
  verification_pending = [];
}

abbrev pub toy_core : Core ℕ
toy_core = record {
  enrollments = record { pending = empty; records = put (bytes "did:web:a") toy_record empty };
  replays = empty;
  external = 0;
}

abbrev pub toy_grant : GrantRequest
toy_grant = record { grant_type = bytes "api-key"; requested_scopes = [] }

abbrev pub toy_enroll : EnrollRequest
toy_enroll = record {
  acknowledged_document_ids = some (bytes "terms" ∷ []);
  agent_did = bytes "did:web:a";
  claims = none;
  idempotency_key = [];
}

abbrev pub toy_options : CommandOptions
toy_options = record { client_assertion = bytes "jwt"; idempotency_key = bytes "k" }
