-- ===== src/Platform/Config.antt =====
-- platform/types.go: a configured Platform, its collaborators, and the state that its operations
-- share. What the application supplies (authorizer, keys, policy, resolver, handler, clock and
-- identifiers) acts on a state `W` of its own.
use aep_go.Prelude.{Bool, Error, List, Option, Text, if◌then◌else◌, ok, ℕ, ◌==◌}
use aep_go.Prelude.Actions.{Action}
use aep_go.Aep.Responses.{Reply}
use aep_go.Platform.Idempotency.{IdempotencyStore}
use aep_go.Platform.Replay.{ReplayStore}
use aep_go.Platform.Types.{
  RequestContext, ManagedAgentStatus, AuthorizationRequest, IdentityRecord, SignRequest,
  SignResponse,
}
use aep_go.Aep.Types.{Time, ClientAssertionClaims}
use aep_go.Platform.Identities.{IdentityStore}

-- `DIDVerificationMethod`
pub record DidVerificationMethod : Type 0 where
  pub controller : Text
  pub id : Text
  pub public_key_jwk : Text
  pub method_type : Text

-- `Platform`
pub record Platform (W Key : Type 0) : Type 0 where
  pub agent_did_id_generator : Action W Text
  pub authorize : AuthorizationRequest → RequestContext → Action W Bool
  pub clock : W → Time × W
  pub default_lifetime : ℕ
  pub did_host : Text
  pub did_path_prefix : Text
  pub did_url_template : Text
  pub hosted_verification : Bool
  pub identifier : Action W Text
  pub create_key : IdentityRecord → Action W (Unit {0})
  pub did_verification_method : IdentityRecord → Action W DidVerificationMethod
  pub sign_claims : IdentityRecord → ClientAssertionClaims → Action W Text
  pub verification_key : IdentityRecord → Action W Key
  pub can_sign : IdentityRecord → RequestContext → Action W Bool
  pub can_transition : IdentityRecord → ManagedAgentStatus → RequestContext → Action W Bool
  pub can_verify : IdentityRecord → RequestContext → Action W Bool
  pub maximum_lifetime : ℕ
  pub resolve_service_did : Text → Action W Bool
  pub sign_handler :
      Option
        (IdentityRecord → SignRequest → RequestContext → Action W (Option (Reply SignResponse)))
  pub signing_algorithms : List Text
  -- `ctx.Err()`
  pub cancelled : W → Option Error
  -- `time.Now()`, where the code reads it past the configured clock
  pub wall_clock : W → Time

-- What an operation may change besides the idempotency store.
pub record Hosting (W : Type 0) : Type 0 where
  pub identities : IdentityStore
  pub replays : ReplayStore
  pub external : W

abbrev pub HostingSession : Type 0 → Type 0
HostingSession W = IdempotencyStore × Hosting W

module _ {W : Type 0} where
  -- A call of a collaborator.
  abbrev pub hosted_call : {A : Type 0} → Action W A → Action (Hosting W) A
  hosted_call call s = let (outcome, w) = call s.external in (outcome, record s { external = w })

  abbrev pub hosting_clock : {Key : Type 0} → Platform W Key → Hosting W → Time × Hosting W
  hosting_clock platform s =
      let (now, w) = platform.clock s.external in (now, record s { external = w })

  abbrev pub hosting_now : {Key : Type 0} → Platform W Key → Action (Hosting W) Time
  hosting_now platform s = let (now, s') = hosting_clock platform s in (ok now, s')

  -- `requestContext.Now`, or the clock if it is not set
  abbrev pub request_time :
      {Key : Type 0} → Platform W Key → RequestContext → Action (Hosting W) Time
  request_time platform context =
      if context.now == 0 then hosting_now platform else (λ s. (ok context.now, s))
