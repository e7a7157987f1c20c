-- ===== src/Platform/Operations/Sign.antt =====
-- platform/platform.go, `Sign`
pub mod Active
pub mod Signed
pub mod Claims
use aep_go.Prelude.{
  Option, Outcome, Text, [], err, if◌then◌else◌, none, not, ok, some, text_eq, ℕ, ◌+◌, ◌||◌,
}
use aep_go.Prelude.Actions.{Action, ◌>>=◌, ◌>>◌, pure, lift}
use aep_go.Aep.Responses.{Reply}
use aep_go.Platform.Results.{
  success_result, problem_result, bad_request, unknown_identity, bad_request_of,
  lifecycle_error_code,
}
use aep_go.Platform.Types.{
  RequestContext, completed, AuthorizationRequest, SignRequest, IdempotentOperation, IdentityRecord,
  SignResponse, is_active_status,
}
use aep_go.Aep.Types.{unix, ClientAssertionClaims, Time}
use aep_go.Aep.Codec.{Stdlib}
use aep_go.Platform.Config.{Platform, Hosting, HostingSession, hosted_call, request_time}
use aep_go.Platform.Operations.{
  authorized_identity, required_context, execute_operation, PlatformCodec,
}
use aep_go.Platform.Requests.{validate_sign_request, validate_sign_result}

unfoldable pub signed_claims :
    IdentityRecord → SignRequest → (lifetime : ℕ) → Time → ClientAssertionClaims
signed_claims identity request lifetime now = record {
  audience = request.service_did;
  expires_at = unix (now + lifetime);
  issued_at = unix now;
  issuer = identity.agent_did;
  jwt_id = request.jwt_id;
  operation = request.operation;
  resource = request.resource;
  subject = identity.agent_did;
}

module _ {W Key : Type 0} (lib : Stdlib) (parse_time : Text → Option Time)
    (platform : Platform W Key) where
  unfoldable pub signed_response :
      IdentityRecord → SignRequest → (lifetime : ℕ) → Time → (assertion : Text) → SignResponse
  signed_response identity request lifetime now assertion = record {
    agent_did = identity.agent_did;
    client_assertion = assertion;
    expires_at = lib.format_rfc3339 (now + lifetime);
    issued_at = lib.format_rfc3339 now;
    jwt_id = request.jwt_id;
    platform_context = request.platform_context;
    retry_after_seconds = [];
    service_did = request.service_did;
    status = completed;
  }

  -- The claims and the signature of the key store.
  unfoldable pub sign_with_key :
      IdentityRecord
      → SignRequest
      → (lifetime : ℕ) → RequestContext
      → Action (Hosting W) (Reply SignResponse)
  unfolding signed_claims signed_response success_result
  sign_with_key identity request lifetime context = request_time platform context >>= λ now.
      hosted_call (platform.sign_claims identity (signed_claims identity request lifetime now))
      >>= λ assertion.
          pure (success_result 200 (signed_response identity request lifetime now assertion) [])

  -- What the sign handler makes of the request, `none` if it leaves it to the key store.
  unfoldable pub handled_signing :
      IdentityRecord
      → SignRequest
      → RequestContext
      → Action (Hosting W) (Option (Reply SignResponse))
  unfolding validate_sign_result
  handled_signing identity request context = elim platform.sign_handler [
    | none ↦ pure none
    | some handler ↦ hosted_call (handler identity request context) >>= λ handled. elim handled [
      | none ↦ pure none
      | some result ↦
          lift (validate_sign_result parse_time result identity request) >> pure (some result)
    ]
  ]

  unfoldable pub sign_allowed :
      IdentityRecord
      → SignRequest
      → (lifetime : ℕ) → RequestContext
      → Action (Hosting W) (Reply SignResponse)
  unfolding handled_signing sign_with_key
  sign_allowed identity request lifetime context =
      handled_signing identity request context >>= λ handled. elim handled [
        | some result ↦ pure result
        | none ↦ sign_with_key identity request lifetime context
      ]

  -- The function that `Sign` hands to the idempotency store.
  unfoldable pub sign_run :
      IdentityRecord
      → SignRequest
      → (lifetime : ℕ) → RequestContext
      → Action (Hosting W) (Reply SignResponse)
  unfolding sign_allowed lifecycle_error_code problem_result
  sign_run identity request lifetime context =
      hosted_call (platform.can_sign identity context) >>= λ allowed.
      (if not allowed || not (is_active_status identity.status)
        then pure
            (problem_result 403 (lifecycle_error_code identity.status) "Identity cannot sign.")
        else sign_allowed identity request lifetime context)

  -- `Sign`
  unfoldable pub sign :
      PlatformCodec
      → Text
      → SignRequest
      → RequestContext
      → HostingSession W
      → Outcome (Reply SignResponse) × HostingSession W
  unfolding validate_sign_request authorized_identity execute_operation sign_run problem_result
      text_eq
  sign codec id request context (store, s) =
      elim (validate_sign_request lib.parse_url platform.default_lifetime platform.maximum_lifetime
        request) [
          | err e ↦ (ok (bad_request_of e), (store, s))
          | ok lifetime ↦
              if required_context context.idempotency_key context.principal
              then (
                ok (bad_request "Idempotency-Key and authenticated principal are required."),
                (store, s),
              )
              else let (found, s') =
                  authorized_identity lib platform id (λ r. AuthorizationRequest.sign r request)
                    context s in
                elim found [
                  | err e ↦ (err e, (store, s'))
                  | ok none ↦ (ok unknown_identity, (store, s'))
                  | ok (some identity) ↦
                      if not (text_eq identity.service_did request.service_did)
                      then (ok unknown_identity, (store, s'))
                      else execute_operation lib platform codec codec.sign_body
                          IdempotentOperation.sign (codec.sign_material id request) context
                          (sign_run identity request lifetime context) (store, s')
                ]
        ]
