-- ===== src/Platform/Operations/Verify.antt =====
-- platform/verification.go, `Verify`
pub mod Verified
pub mod Once
use aep_go.Prelude.{
  Bool, Error, List, Option, Outcome, Text, [], bytes, err, false, if◌then◌else◌, is_empty, is_some,
  none, not, ok, some, text_eq, true, ◌&&◌, ◌*◌, ◌++◌, ◌||◌, ◌∷◌,
}
use aep_go.Prelude.Int64.{add64, ltb_ℤ, pos, pos_part, ℤ}
use aep_go.Prelude.Actions.{Action, ◌>>=◌, pure}
use aep_go.Aep.Responses.{Reply}
use aep_go.Platform.Results.{success_result, problem_result, bad_request_of, bad_request}
use aep_go.Platform.Types.{
  RequestContext, VerificationRequest, IdempotentOperation, ManagedAgentStatus, hosted_verification,
  IdentityRecord, VerificationResponse, AuthorizationRequest, is_active_status,
}
use aep_go.Platform.Replay.{consume_replay, ReplayStore}
use aep_go.Aep.Assertion.{is_authenticate, VerifyOptions, Token, verify_client_assertion}
use aep_go.Aep.Codec.{Stdlib}
use aep_go.Aep.Types.{
  second, Time, AssertionOperation, ClientAssertionClaims, operation_text, ErrorCode,
}
use aep_go.Platform.Config.{Hosting, HostingSession, Platform, hosted_call, request_time}
use aep_go.Platform.Identities.{find_identity}
use aep_go.Platform.Operations.{required_context, execute_operation, PlatformCodec}
use aep_go.Platform.Requests.{validate_verification_request}

-- The members of a decoded token that `Verify` reads, where they are strings.
pub record NamedToken : Type 0 where
  pub issuer : Option Text
  pub subject : Option Text
  pub key_id : Option Text

-- `agentDID`, unless the token does not name one agent throughout.
unfoldable pub named_agent : NamedToken → Option Text
unfolding text_eq
named_agent token = elim token.issuer [
  | none ↦ none
  | some issuer ↦ elim token.subject [
    | none ↦ none
    | some subject ↦ elim token.key_id [
      | none ↦ none
      | some key_id ↦
          if is_empty issuer || not (text_eq issuer subject) || not (text_eq key_id issuer)
          then none
          else some issuer
    ]
  ]
]

unfoldable pub unrecognized : VerificationRequest → Reply VerificationResponse
unfolding success_result
unrecognized request =
    success_result 200
      (record {
        agent_did = [];
        agent_identity_id = [];
        operation = AssertionOperation.unregistered [];
        reason = bytes "not_recognized";
        service_did = request.service_did;
        status = ManagedAgentStatus.unregistered [];
        verified = false;
      })
      []

unfoldable pub verified_response : IdentityRecord → VerificationRequest → Reply VerificationResponse
unfolding success_result
verified_response identity request =
    success_result 200
      (record {
        agent_did = identity.agent_did;
        agent_identity_id = identity.agent_identity_id;
        operation = request.operation;
        reason = bytes "verified";
        service_did = request.service_did;
        status = identity.status;
        verified = true;
      })
      []

unfoldable pub verify_options :
    {Key : Type 0} → IdentityRecord → VerificationRequest → Key → Time → VerifyOptions Key
verify_options identity request key now = record {
  algorithms = identity.signing_algorithms;
  allow_insecure_loopback = false;
  audience = request.service_did;
  clock_tolerance = pos 0;
  current_time = now;
  issuer = identity.agent_did;
  key = some key;
  key_resolver = none;
  operation = some request.operation;
  resource = request.resource;
  subject = identity.agent_did;
}

-- `replayKey`
unfoldable pub verification_key : VerificationRequest → (agent_did jwt_id : Text) → Text
unfolding operation_text
verification_key request agent_did jwt_id =
    request.service_did
    ++ (0 ∷ (operation_text request.operation ++ (0 ∷ (agent_did ++ (0 ∷ jwt_id)))))

-- The seconds since year 1 that `time.Unix(seconds, 0)` keeps, in 64 bits.
abbrev pub internal_seconds : ℤ → ℤ
internal_seconds seconds = add64 seconds (pos 62_135_596_800)

-- `time.Unix(seconds, 0)`, for a time that is not before year 1.
abbrev pub from_unix : ℤ → Time
from_unix seconds = pos_part (internal_seconds seconds) * second

-- `ConsumeReplay` for the expiry `time.Unix(seconds, 0)`. A time before year 1 is not the zero time
-- and is over, so nothing is stored for it.
unfoldable pub consume_until :
    Option Error → Text → (seconds : ℤ) → Time → ReplayStore → Outcome Bool × ReplayStore
unfolding consume_replay
consume_until cancelled key seconds now replays =
    if ltb_ℤ (internal_seconds seconds) (pos 0) && not (is_some cancelled)
    then (ok false, replays)
    else consume_replay cancelled key (from_unix seconds) now replays

module _ {W Key : Type 0} (platform : Platform W Key) where
  -- `platform.replayStore.ConsumeReplay`
  abbrev pub stored_replay : Text → (seconds : ℤ) → Action (Hosting W) Bool
  stored_replay key seconds s =
      let (outcome, replays) =
        consume_until (platform.cancelled s.external) key seconds (platform.wall_clock s.external)
          s.replays in
      (outcome, record s { replays = replays })

  unfoldable pub consume_claims :
      IdentityRecord
      → (agent_did : Text) → VerificationRequest
      → ClientAssertionClaims
      → Action (Hosting W) (Reply VerificationResponse)
  unfolding verification_key consume_until unrecognized verified_response
  consume_claims identity agent_did request claims =
      if not (is_authenticate request.operation) && not (is_empty claims.resource)
      then pure (unrecognized request)
      else stored_replay (verification_key request agent_did claims.jwt_id) claims.expires_at
        >>= λ consumed.
            pure (if consumed then verified_response identity request else unrecognized request)

module _ {W Key : Type 0} (lib : Stdlib) (platform : Platform W Key)
    (decode_named : Text → Option NamedToken) (parse_signed : Text → List Text → Option Token)
    (verified_claims : Text → Key → Option ClientAssertionClaims) where
  unfoldable pub verify_with_key :
      IdentityRecord
      → (agent_did : Text) → VerificationRequest
      → RequestContext
      → Key
      → Action (Hosting W) (Reply VerificationResponse)
  unfolding verify_options verify_client_assertion consume_claims unrecognized
  verify_with_key identity agent_did request context key = request_time platform context >>= λ now.
      λ s.
        elim (verify_client_assertion lib.parse_url parse_signed verified_claims
          (platform.wall_clock s.external) (verify_options identity request key now)
          request.client_assertion) [
            | err e ↦ (ok (unrecognized request), s)
            | ok claims ↦ consume_claims platform identity agent_did request claims s
          ]

  -- The function that `Verify` hands to the idempotency store.
  unfoldable pub verify_run :
      IdentityRecord
      → (agent_did : Text) → VerificationRequest
      → RequestContext
      → Action (Hosting W) (Reply VerificationResponse)
  unfolding verify_with_key unrecognized
  verify_run identity agent_did request context =
      hosted_call (platform.can_verify identity context) >>= λ allowed.
      (if not allowed || not (is_active_status identity.status)
        then pure (unrecognized request)
        else hosted_call (platform.verification_key identity)
          >>= verify_with_key identity agent_did request context)

  -- `platform.identityStore.FindIdentityByAgentDID`
  abbrev pub identity_of_agent : Text → Action (Hosting W) (Option IdentityRecord)
  identity_of_agent agent_did s = (
    find_identity (platform.cancelled s.external) s.identities.by_agent_did agent_did s.identities,
    s,
  )

  -- The identity that a caller may have verified: it is hosted for the Service of the request, and
  -- the authorizer admits the caller.
  unfoldable pub admitted_identity :
      VerificationRequest → RequestContext → Text → Action (Hosting W) (Option IdentityRecord)
  unfolding find_identity text_eq
  admitted_identity request context agent_did = identity_of_agent agent_did >>= λ found.
      elim found [
        | none ↦ pure none
        | some r ↦
            if not (text_eq r.service_did request.service_did)
            then pure none
            else hosted_call (platform.authorize (AuthorizationRequest.verify r request) context)
              >>= λ authorized. pure (if authorized then some r else none)
      ]

  -- `Verify`
  unfoldable pub verify :
      PlatformCodec
      → VerificationRequest
      → RequestContext
      → HostingSession W
      → Outcome (Reply VerificationResponse) × HostingSession W
  unfolding validate_verification_request named_agent admitted_identity execute_operation verify_run
      unrecognized problem_result
  verify codec request context (store, s) =
      if not platform.hosted_verification
      then (
        ok (problem_result 404 ErrorCode.not_recognized "Hosted verification is not available."),
        (store, s),
      )
      else elim (validate_verification_request lib.parse_url request) [
        | err e ↦ (ok (bad_request_of e), (store, s))
        | ok _ ↦
            if required_context context.idempotency_key context.principal
            then (
              ok (bad_request "Idempotency-Key and authenticated principal are required."),
              (store, s),
            )
            else elim (decode_named request.client_assertion) [
              | none ↦ (ok (unrecognized request), (store, s))
              | some token ↦ elim (named_agent token) [
                | none ↦ (ok (unrecognized request), (store, s))
                | some agent_did ↦
                    let (found, s') = admitted_identity request context agent_did s in
                    elim found [
                      | err e ↦ (err e, (store, s'))
                      | ok none ↦ (ok (unrecognized request), (store, s'))
                      | ok (some identity) ↦
                          execute_operation lib platform codec codec.verification_body
                            IdempotentOperation.hosted_verification
                            (codec.verification_material request) context
                            (verify_run identity agent_did request context) (store, s')
                    ]
              ]
            ]
      ]
