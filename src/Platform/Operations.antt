-- ===== src/Platform/Operations.antt =====
-- platform/platform.go: what the operations of a Platform share, and those that are not
-- idempotent. An operation runs uninterrupted here.
pub mod Sign
pub mod Kept
pub mod Authorized
pub mod Owned
pub mod Provisioned
pub mod Provision
pub mod Verify
use aep_go.Prelude.{
  Bool, Option, Outcome, Text, [], err, if◌then◌else◌, is_empty, none, not, ok, some, text_eq, ◌||◌,
}
use aep_go.Prelude.Actions.{Action, ◌>>=◌, pure, lift}
use aep_go.Aep.Responses.{Reply, StoredResponse, IdempotencyResult, created, replayed, conflict}
use aep_go.Platform.Idempotency.{IdempotencyInput, execute_idempotent}
use aep_go.Platform.Results.{
  success_result, problem_result, store_result, restore_result, bad_request, BodyCodec,
  unknown_identity, lifecycle_error_code, agent_identity_from_record,
}
use aep_go.Platform.Identities.{get_identity, update_identity}
use aep_go.Platform.Types.{
  RequestContext, AgentIdentity, VerificationRequest, AuthorizationRequest, SignRequest,
  IdempotentOperation, ProvisionRequest, LifecycleRequest, IdentityRecord, VerificationResponse,
  is_managed_agent_status, SignResponse, ManagedAgentStatus,
}
use aep_go.Aep.Codec.{Stdlib}
use aep_go.Aep.Types.{idempotency_conflict, ErrorCode, ProblemDetails, Time}
use aep_go.Platform.Config.{
  Platform, Hosting, HostingSession, hosting_now, hosted_call, hosting_clock,
}

-- What the Platform takes from encoding/json, besides `Stdlib`.
pub record PlatformCodec : Type 0 where
  pub provision_material : ProvisionRequest → Outcome Text
  -- the agent identity identifier and the request
  pub sign_material : Text → SignRequest → Outcome Text
  pub verification_material : VerificationRequest → Outcome Text
  pub identity_body : BodyCodec AgentIdentity
  pub sign_body : BodyCodec SignResponse
  pub verification_body : BodyCodec VerificationResponse
  pub unmarshal_problem : Text → Outcome ProblemDetails

abbrev pub required_context : Text → Text → Bool
required_context key principal = is_empty key || is_empty principal

module _ {W Key : Type 0} (lib : Stdlib) (platform : Platform W Key) where
  abbrev pub identity_reply : IdentityRecord → Reply AgentIdentity
  identity_reply r = success_result 200 (agent_identity_from_record lib.format_rfc3339 r) []

  -- The record is given to a caller that the authorizer admits and that owns it.
  unfoldable pub owned_identity : RequestContext → IdentityRecord → Bool → Option IdentityRecord
  unfolding text_eq
  owned_identity context r authorized =
      if not authorized || is_empty context.principal || not (text_eq r.principal context.principal)
      then none
      else some r

  -- `platform.identityStore.GetIdentity`
  abbrev pub stored_identity : Text → Action (Hosting W) (Option IdentityRecord)
  stored_identity id s = (get_identity (platform.cancelled s.external) id s.identities, s)

  -- `authorizedIdentity`
  unfoldable pub authorized_identity :
      Text
      → (IdentityRecord → AuthorizationRequest)
      → RequestContext
      → Action (Hosting W) (Option IdentityRecord)
  unfolding owned_identity get_identity
  authorized_identity id request context = stored_identity id >>= λ found. elim found [
    | none ↦ pure none
    | some r ↦ hosted_call (platform.authorize (request r) context) >>= λ authorized.
        pure (owned_identity context r authorized)
  ]

  -- `GetIdentity`
  unfoldable pub get_hosted_identity :
      Text → RequestContext → Action (Hosting W) (Reply AgentIdentity)
  unfolding authorized_identity agent_identity_from_record success_result problem_result
  get_hosted_identity id context =
      authorized_identity id AuthorizationRequest.get_identity context >>= λ found. elim found [
        | none ↦ pure unknown_identity
        | some r ↦ pure (identity_reply r)
      ]

  -- `platform.identityStore.UpdateIdentity`
  abbrev pub stored_update :
      Text → ManagedAgentStatus → Time → Action (Hosting W) (Option IdentityRecord)
  stored_update id new_status now s =
      let (outcome, identities) =
        update_identity (platform.cancelled s.external) id new_status now s.identities in
      (outcome, record s { identities = identities })

  unfoldable pub transition :
      Text → LifecycleRequest → IdentityRecord → Bool → Action (Hosting W) (Reply AgentIdentity)
  unfolding lifecycle_error_code update_identity
  transition id request r allowed =
      if not allowed
      then pure
          (problem_result 403 (lifecycle_error_code r.status) "Lifecycle transition rejected.")
      else hosting_now platform >>= λ now. stored_update id request.status now >>= λ updated.
          elim updated [
            | none ↦ pure unknown_identity
            | some changed ↦ pure (identity_reply changed)
          ]

  -- `UpdateIdentity`
  unfoldable pub update_hosted_identity :
      Text → LifecycleRequest → RequestContext → Action (Hosting W) (Reply AgentIdentity)
  unfolding authorized_identity transition is_managed_agent_status
  update_hosted_identity id request context =
      if not (is_managed_agent_status request.status)
      then pure (bad_request "Lifecycle status is invalid.")
      else authorized_identity id (λ r. AuthorizationRequest.update_identity r request) context
        >>= λ found. elim found [
          | none ↦ pure unknown_identity
          | some r ↦
              hosted_call (platform.can_transition r request.status context)
              >>= transition id request r
        ]

  unfoldable pub operation_input :
      RequestContext → IdempotentOperation → (encoded canonical : Text) → IdempotencyInput
  operation_input context operation encoded canonical = record {
    canonical_request_hash = lib.sha256 canonical;
    idempotency_key = context.idempotency_key;
    operation = operation;
    principal = context.principal;
    request_hash = lib.sha256 encoded;
  }

  module _ (codec : PlatformCodec) {Body : Type 0} (body : BodyCodec Body) where
    -- The function that the idempotency store calls.
    unfoldable pub storable : Action (Hosting W) (Reply Body) → Action (Hosting W) StoredResponse
    unfolding store_result
    storable run = run >>= λ reply. lift (store_result body lib.marshal_problem reply)

    unfoldable pub operation_reply : Outcome IdempotencyResult → Outcome (Reply Body)
    unfolding problem_result restore_result
    operation_reply (err e) = err e
    operation_reply (ok conflict) = ok (
        problem_result 409 ErrorCode.idempotency_conflict
          "Idempotency key conflicts with an earlier request.")
    operation_reply (ok (created response)) = restore_result body codec.unmarshal_problem response
    operation_reply (ok (replayed response)) = restore_result body codec.unmarshal_problem response

    -- `executeIdempotent`; `encoded` is `json.Marshal(material)`
    unfoldable pub execute_operation :
        IdempotentOperation
        → (encoded : Outcome Text) → RequestContext
        → Action (Hosting W) (Reply Body)
        → HostingSession W
        → Outcome (Reply Body) × HostingSession W
    execute_operation operation encoded context run (store, s) =
        if required_context context.idempotency_key context.principal
        then (
          ok (bad_request "Idempotency-Key and authenticated principal are required."),
          (store, s),
        )
        else elim encoded [
          | err e ↦ (err e, (store, s))
          | ok text ↦ elim (lib.canonical text) [
            | err e ↦ (err e, (store, s))
            | ok canonical ↦
                let (result, store', s') =
                  execute_idempotent (hosting_clock platform)
                    (λ (t : Hosting W). platform.cancelled t.external)
                    (operation_input context operation text canonical) (storable run) (store, s) in
                (operation_reply result, (store', s'))
          ]
        ]
