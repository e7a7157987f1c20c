-- ===== src/Platform/Operations/Provision.antt =====
-- platform/platform.go, `Provision`
use aep_go.Prelude.{
  Option, Outcome, Text, bytes, err, error, fail_if, false, if◌then◌else◌, is_empty, not, ok, true,
  ◌++◌,
}
use aep_go.Prelude.Actions.{Action, ◌>>=◌, ◌>>◌, pure, lift}
use aep_go.Aep.Responses.{Reply}
use aep_go.Platform.Results.{
  success_result, problem_result, unknown_identity, bad_request, agent_identity_from_record,
}
use aep_go.Platform.Types.{
  RequestContext, active, AgentIdentity, IdempotentOperation, IdentityRecord, ProvisionRequest,
  AuthorizationRequest,
}
use aep_go.Aep.Bytes.{has_prefix}
use aep_go.Aep.Codec.{Stdlib}
use aep_go.Aep.Types.{Time}
use aep_go.Platform.AgentDids.{render_did_url, ParsedUrl, create_service_scoped_agent_did}
use aep_go.Platform.Config.{Platform, Hosting, hosted_call, HostingSession}
use aep_go.Platform.Identifiers.{is_did}
use aep_go.Platform.Identities.{find_or_create_identity, validate_identity_record}
use aep_go.Platform.Operations.{required_context, execute_operation, identity_reply, PlatformCodec}

module _ {W Key : Type 0} (lib : Stdlib) (parse_url : Text → Option ParsedUrl)
    (platform : Platform W Key) where
  abbrev with_prefix : Text → Text
  with_prefix id = if has_prefix id (bytes "pai_") then id else bytes "pai_" ++ id

  unfoldable pub new_identity :
      (principal service_did id did_id did url : Text) → Time → IdentityRecord
  new_identity principal service_did id did_id did url now = record {
    agent_did = did;
    agent_did_id = did_id;
    agent_identity_id = id;
    created_at = now;
    did_document_url = url;
    key_id = did;
    principal = principal;
    service_did = service_did;
    signing_algorithms = platform.signing_algorithms;
    status = active;
    updated_at = now;
  }

  -- What `createIdentity` does once it has its identifiers.
  unfoldable pub identity_with_key :
      (principal service_did id did_id did url : Text) → Action W IdentityRecord
  unfolding new_identity validate_identity_record
  identity_with_key principal service_did id did_id did url w =
      let (now, w') = platform.clock w in
      let r = new_identity principal service_did id did_id did url now in
      (lift (validate_identity_record r) >> platform.create_key r >> pure r) w'

  -- `createIdentity`
  unfoldable pub create_identity : (principal service_did : Text) → Action W IdentityRecord
  unfolding has_prefix create_service_scoped_agent_did render_did_url identity_with_key
  create_identity principal service_did = platform.identifier >>= λ id.
      lift (
        fail_if (is_empty id)
          (error "AEP Platform identity generator returned an empty identifier"))
      >> platform.agent_did_id_generator
      >>= λ did_id.
          lift (
            create_service_scoped_agent_did parse_url platform.did_host platform.did_path_prefix
              did_id)
          >>= λ did. lift (render_did_url parse_url platform.did_url_template did_id) >>= λ url.
              identity_with_key principal service_did (with_prefix id) did_id did url

  -- `platform.identityStore.FindOrCreateIdentity`
  abbrev pub hosted_identity : (principal service_did : Text) → Action (Hosting W) IdentityRecord
  hosted_identity principal service_did s =
      let (outcome, identities, w) =
        find_or_create_identity (platform.cancelled s.external) principal service_did
          (create_identity principal service_did) (s.identities, s.external) in
      let s' = record s { identities = identities; external = w } in
      elim outcome [ err e ↦ (err e, s') | ok (r, fresh) ↦ (ok r, s') ]

  -- The function that `Provision` hands to the idempotency store.
  unfoldable pub provision_run :
      ProvisionRequest → RequestContext → Action (Hosting W) (Reply AgentIdentity)
  unfolding find_or_create_identity create_identity problem_result success_result
      agent_identity_from_record
  provision_run request context =
      hosted_call (platform.resolve_service_did request.service_did) >>= λ resolved.
      (if not resolved
        then pure (bad_request "Service DID could not be resolved.")
        else hosted_identity context.principal request.service_did >>= λ r.
            pure (identity_reply lib platform r))

  -- `Provision`
  unfoldable pub provision :
      PlatformCodec
      → ProvisionRequest
      → RequestContext
      → HostingSession W
      → Outcome (Reply AgentIdentity) × HostingSession W
  unfolding is_did execute_operation provision_run problem_result
  provision codec request context (store, s) =
      if not (is_did request.service_did)
      then (ok (bad_request "service_did must be a DID."), (store, s))
      else if required_context context.idempotency_key context.principal
      then (
        ok (bad_request "Idempotency-Key and authenticated principal are required."),
        (store, s),
      )
      else let (authorized, s') =
          hosted_call (platform.authorize (AuthorizationRequest.provision_identity request) context)
            s in
        elim authorized [
          | err e ↦ (err e, (store, s'))
          | ok false ↦ (ok unknown_identity, (store, s'))
          | ok true ↦
              execute_operation lib platform codec codec.identity_body IdempotentOperation.provision
                (codec.provision_material request) context (provision_run request context)
                (store, s')
        ]
