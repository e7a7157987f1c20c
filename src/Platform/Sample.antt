-- ===== src/Platform/Sample.antt =====
-- A small Platform, with its collaborators and a state, for the tests.
use aep_go.Prelude.{
  List, Option, Text, [], bytes, empty, err, error, false, if◌then◌else◌, none, ok, put, some, suc,
  true, ℕ, ◌*◌, ◌+◌, ◌==◌, ◌∷◌,
}
use aep_go.Prelude.Int64.{pos}
use aep_go.Platform.Types.{
  RequestContext, active, SignStatus, SignResponse, VerificationRequest, SignRequest,
  IdentityRecord,
}
use aep_go.Aep.Assertion.{Token}
use aep_go.Aep.Types.{AssertionOperation, ClientAssertionClaims}
use aep_go.Platform.Config.{Platform, Hosting}
use aep_go.Platform.Identities.{new_identity_store, identity_scope_key}
use aep_go.Platform.Operations.{PlatformCodec}
use aep_go.Platform.Operations.Verify.{NamedToken}
use aep_go.Platform.Results.{BodyCodec}
use aep_go.Aep.Bytes.{has_prefix}
use aep_go.Platform.AgentDids.{ParsedUrl}

abbrev pub toy_identity : IdentityRecord
toy_identity = record {
  agent_did = bytes "did:web:h:agents:a";
  agent_did_id = bytes "a";
  agent_identity_id = bytes "pai_1";
  created_at = 1;
  did_document_url = bytes "https://h/a";
  key_id = bytes "did:web:h:agents:a";
  principal = bytes "p";
  service_did = bytes "did:web:s";
  signing_algorithms = bytes "EdDSA" ∷ [];
  status = active;
  updated_at = 1;
}

abbrev pub toy_context : RequestContext
toy_context = record {
  authorization = [];
  idempotency_key = bytes "k";
  now = 0;
  principal = bytes "p";
  request_id = [];
}

abbrev pub platform_now : ℕ
platform_now = (62_135_596_800 + 200) * 1_000_000_000

-- It signs nothing but the text "jwt", and counts what it signs.
abbrev pub toy_platform : Platform ℕ ℕ
toy_platform = record {
  agent_did_id_generator = λ n. (ok (bytes "a"), n);
  authorize = λ request context n. (ok true, n);
  clock = λ n. (platform_now, n);
  default_lifetime = 60 * 1_000_000_000;
  did_host = bytes "h";
  did_path_prefix = [];
  did_url_template = bytes "https://h/agents/{agent_did_id}/did.json";
  hosted_verification = true;
  identifier = λ n. (ok (bytes "1"), n);
  create_key = λ r n. (ok tt, n);
  did_verification_method = λ r n. (err (error "not used"), n);
  sign_claims = λ r claims n. (ok (bytes "jwt"), suc n);
  verification_key = λ r n. (ok 7, n);
  can_sign = λ r context n. (ok true, n);
  can_transition = λ r new_status context n. (ok true, n);
  can_verify = λ r context n. (ok true, n);
  maximum_lifetime = 300 * 1_000_000_000;
  resolve_service_did = λ did n. (ok true, n);
  sign_handler = none;
  signing_algorithms = bytes "EdDSA" ∷ [];
  cancelled = λ n. none;
  wall_clock = λ n. platform_now;
}

abbrev pub toy_hosting : Hosting ℕ
toy_hosting = record {
  identities = record {
    by_agent_did = put (bytes "did:web:h:agents:a") (bytes "pai_1") empty;
    by_agent_did_id = put (bytes "a") (bytes "pai_1") empty;
    by_scope = put (identity_scope_key (bytes "p") (bytes "did:web:s")) (bytes "pai_1") empty;
    pending = empty;
    records = put (bytes "pai_1") toy_identity empty;
  };
  replays = empty;
  external = 0;
}

abbrev pub empty_hosting : Hosting ℕ
empty_hosting = record { identities = new_identity_store; replays = empty; external = 0 }

abbrev pub toy_sign_request : SignRequest
toy_sign_request = record {
  jwt_id = bytes "j";
  lifetime_seconds = bytes "60";
  operation = AssertionOperation.enroll;
  platform_context = none;
  resource = [];
  service_did = bytes "did:web:s";
}

abbrev pub fixed_body : {Body : Type 0} → Body → BodyCodec Body
fixed_body body = record { encode = λ b. ok (bytes "{}"); decode = λ t. ok body }

abbrev pub toy_response : SignResponse
toy_response = record {
  agent_did = bytes "did:web:h:agents:a";
  client_assertion = bytes "jwt";
  expires_at = [];
  issued_at = [];
  jwt_id = bytes "j";
  platform_context = none;
  retry_after_seconds = [];
  service_did = bytes "did:web:s";
  status = SignStatus.completed;
}

abbrev pub platform_codec : PlatformCodec
platform_codec = record {
  provision_material = λ r. ok (bytes "{}");
  sign_material = λ id r. ok (bytes "{}");
  verification_material = λ r. ok (bytes "{}");
  identity_body = fixed_body (record {
    agent_did = [];
    agent_identity_id = [];
    created_at = [];
    did_document_url = [];
    key_id = [];
    service_did = [];
    signing_algorithms = [];
    status = active;
    updated_at = [];
  });
  sign_body = fixed_body toy_response;
  verification_body = fixed_body (record {
    agent_did = [];
    agent_identity_id = [];
    operation = AssertionOperation.enroll;
    reason = [];
    service_did = [];
    status = active;
    verified = true;
  });
  unmarshal_problem = λ t. err (error "not used");
}

abbrev pub toy_verification : Text → VerificationRequest
toy_verification assertion = record {
  client_assertion = assertion;
  operation = AssertionOperation.enroll;
  resource = [];
  service_did = bytes "did:web:s";
}

-- An assertion is its JWT ID, signed by the key 7.
abbrev pub toy_signed : Text → ℕ → Option ClientAssertionClaims
toy_signed assertion key =
    if key == 7
    then some (record {
      audience = bytes "did:web:s";
      expires_at = pos 300;
      issued_at = pos 200;
      issuer = bytes "did:web:h:agents:a";
      jwt_id = assertion;
      operation = AssertionOperation.enroll;
      resource = [];
      subject = bytes "did:web:h:agents:a";
    })
    else none

abbrev pub toy_parse_signed : Text → List Text → Option Token
toy_parse_signed assertion algorithms = some (record {
  signatures = 1;
  key_id = bytes "did:web:h:agents:a";
  token_type = some (bytes "JWT");
})

abbrev pub no_named : Text → Option NamedToken
no_named assertion = none

abbrev pub no_time : Text → Option ℕ
no_time text = none

-- Addresses of the host "h" and paths.
abbrev pub toy_parse_url : Text → Option ParsedUrl
toy_parse_url text =
    let remote = has_prefix text (bytes "https://") in
    some (record {
      scheme = if remote then bytes "https" else [];
      host = if remote then bytes "h" else [];
      hostname = if remote then bytes "h" else [];
      has_user = false;
      path = [];
      raw_query = [];
      fragment = [];
      text = text;
    })
