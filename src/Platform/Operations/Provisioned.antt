-- ===== src/Platform/Operations/Provisioned.antt =====
-- The indexes of the identity store through `Provision`.
use aep_go.Prelude.{Bool-cases, Option, Outcome-cases, Text, arith, false, inl, inr, subst, true}
use aep_go.Platform.Operations.Provision.{
  provision, hosted_identity, provision_run, create_identity,
}
use aep_go.Platform.Idempotency.{IdempotencyStore}
use aep_go.Platform.Types.{
  RequestContext, ProvisionRequest, AuthorizationRequest, IdempotentOperation,
}
use aep_go.Aep.Codec.{Stdlib}
use aep_go.Platform.AgentDids.{ParsedUrl}
use aep_go.Platform.Config.{Platform, hosted_call, Hosting}
use aep_go.Platform.Identifiers.{is_did}
use aep_go.Platform.Identities.{find_or_create_identity}
use aep_go.Platform.Identities.Indexed.{IsIndexed}
use aep_go.Platform.Identities.Provisioned.{find_or_create_identity-IsIndexed}
use aep_go.Platform.Operations.{required_context, PlatformCodec}
use aep_go.Platform.Operations.Kept.{execute_operation-keeps}

module _ {W Key : Type 0} (lib : Stdlib) (parse_url : Text → Option ParsedUrl)
    (platform : Platform W Key) where
  hosted_identity-keeps :
      (principal service_did : Text) (s : Hosting W)
      → IsIndexed s.identities
      → IsIndexed (hosted_identity lib parse_url platform principal service_did s).1.identities
  hosted_identity-keeps principal service_did s h =
      let make = create_identity lib parse_url platform principal service_did in
      let found =
        find_or_create_identity (platform.cancelled s.external) principal service_did make
          (s.identities, s.external) in
      let kept =
        find_or_create_identity-IsIndexed (platform.cancelled s.external) principal service_did make
          s.identities s.external h in
      elim (Outcome-cases found.0) [
        | inl (e, failed) ↦ subst IsIndexed (ground arith) kept
        | inr ((r, fresh), done) ↦ subst IsIndexed (ground arith) kept
      ]

  provision_run-IsIndexed :
      (request : ProvisionRequest) (context : RequestContext) (s : Hosting W)
      → IsIndexed s.identities
      → IsIndexed (provision_run lib parse_url platform request context s).1.identities
  unfolding provision_run
  provision_run-IsIndexed request context s h =
      let w = (platform.resolve_service_did request.service_did s.external).1 in
      let s' : Hosting W = record s { external = w } in
      let hosted =
        hosted_identity lib parse_url platform context.principal request.service_did s' in
      let kept = hosted_identity-keeps context.principal request.service_did s' h in
      elim (Outcome-cases (platform.resolve_service_did request.service_did s.external).0) [
        | inl (e, failed) ↦ subst IsIndexed (ground arith) h
        | inr (false, unresolved) ↦ subst IsIndexed (ground arith) h
        | inr (true, resolved) ↦ elim (Outcome-cases hosted.0) [
          | inl (e, failed) ↦ subst IsIndexed (ground arith) kept
          | inr (r, done) ↦ subst IsIndexed (ground arith) kept
        ]
      ]

  -- Provision keeps the indexes of the identity store in order, on every branch: a repeated
  -- request, a refusal and a failure of any collaborator included.
  pub provision-IsIndexed :
      (codec : PlatformCodec) (request : ProvisionRequest) (context : RequestContext)
      (store : IdempotencyStore) (s : Hosting W)
      → IsIndexed s.identities
      → IsIndexed (provision lib parse_url platform codec request context (store, s)).1.1.identities
  unfolding provision
  provision-IsIndexed codec request context store s h =
      let (authorized, s') =
        hosted_call (platform.authorize (AuthorizationRequest.provision_identity request) context)
          s in
      elim (Bool-cases (is_did request.service_did)) [
        | inr other ↦ subst IsIndexed (ground arith) h
        | inl did ↦ elim (Bool-cases (required_context context.idempotency_key context.principal)) [
          | inl missing ↦ subst IsIndexed (ground arith) h
          | inr present ↦ elim (Outcome-cases authorized) [
            | inl (e, failed) ↦ subst IsIndexed (ground arith) h
            | inr (false, refused) ↦ subst IsIndexed (ground arith) h
            | inr (true, admitted) ↦ subst IsIndexed (ground arith) (
                execute_operation-keeps lib platform IsIndexed codec codec.identity_body
                  IdempotentOperation.provision (codec.provision_material request) context
                  (provision_run lib parse_url platform request context) store s'
                  (provision_run-IsIndexed request context) h)
          ]
        ]
      ]
