-- ===== src/Platform/OperationTests.antt =====
-- Runs of the operations of a Platform on concrete values.
use aep_go.Prelude.{
  Table, [], arith, bytes, drop, empty, false, none, ok, put, refl, some, take, text_eq, true, ◌*◌,
  ◌↔◌, ◌∷◌, ◌≡◌, ◌≤◌, ◌⊎◌,
}
use aep_go.Prelude.Int64.{pos}
use aep_go.Aep.Bytes.{has_prefix}
use aep_go.Platform.Idempotency.{
  new_idempotency_store, execute_idempotent, is_complete_input, admit, settle,
}
use aep_go.Platform.Operations.Provision.{provision}
use aep_go.Platform.Listing.{list_identities, is_listed, sorted_records}
use mathlib.Core.List.{Permᴰ}
use aep_go.Platform.Operations.Sign.{sign, sign_run, signed_claims}
use aep_go.Platform.Results.{problem_result}
use aep_go.Platform.Idempotency.{new_idempotency_store}
use aep_go.Platform.Types.{
  ManagedAgentStatus, AuthorizationRequest, SignResponse, IdentityRecord, IdentityListQuery,
}
use aep_go.Aep.Assertion.{validate_client_assertion_claims}
use aep_go.Aep.Responses.{Reply}
use aep_go.Aep.Types.{media_type, second, ErrorCode}
use aep_go.Platform.Identifiers.{canonical_positive_integer, decimal, max_signed64}
use aep_go.Platform.Identifiers.Canonical.{canonical_positive_integer_iff}
use aep_go.Platform.Operations.Authorized.{IsOwned}
use aep_go.Platform.Operations.Sign.Active.{sign-IsOwned}
use aep_go.Platform.Operations.Sign.Claims.{signed_claims_pass, IsLifetime}
use aep_go.Platform.Requests.{validate_sign_request}
use aep_go.Platform.Sample.{
  platform_codec, toy_identity, toy_sign_request, toy_hosting, toy_platform, toy_context, no_time,
  platform_now, toy_response, empty_hosting, toy_parse_url,
}
use aep_go.Service.Sample.{toy_lib}
use aep_go.Platform.AgentDids.{create_service_scoped_agent_did}
use aep_go.Platform.AgentDids.Escaped.{create_service_scoped_agent_did_injective}
use aep_go.Platform.Identities.Indexed.{IsIndexed}
use aep_go.Platform.Identities.Unique.{new-IsIndexed}
use aep_go.Platform.Listing.Pages.{pages_cover, page_records}
use aep_go.Platform.Listing.Visits.{list_identities-perm}
use aep_go.Platform.Operations.{storable, operation_input, operation_reply, update_hosted_identity}
use aep_go.Platform.Operations.Owned.{OwnedChange, update_hosted_identity-OwnedChange}
use aep_go.Platform.Operations.Provisioned.{provision-IsIndexed}
use aep_go.Platform.Operations.Sign.Signed.{sign_run-cases, IsRefused, IsAllowed}

canonical_positive_integer_iff_example :
    (canonical_positive_integer (bytes "60") ≡ some 60)
    ↔ ((1 ≤ 60) × (60 ≤ max_signed64) × (bytes "60" ≡ decimal 60))
canonical_positive_integer_iff_example = canonical_positive_integer_iff (bytes "60") 60

abbrev suspended_identity : IdentityRecord
suspended_identity = record toy_identity { status = ManagedAgentStatus.suspended }

refuses_suspended :
    (sign_run toy_lib no_time toy_platform suspended_identity toy_sign_request 60 toy_context
      toy_hosting).0
    ≡ ok (problem_result 403 ErrorCode.identity_suspended "Identity cannot sign.")
unfolding sign_run
refuses_suspended = refl

sign_run-cases_example :
    IsRefused toy_lib no_time toy_platform suspended_identity toy_sign_request 60 toy_context
      toy_hosting
      (sign_run toy_lib no_time toy_platform suspended_identity toy_sign_request 60 toy_context
        toy_hosting).1
      (problem_result 403 ErrorCode.identity_suspended "Identity cannot sign.")
    ⊎ IsAllowed toy_lib no_time toy_platform suspended_identity toy_sign_request 60 toy_context
        toy_hosting
        (problem_result 403 ErrorCode.identity_suspended "Identity cannot sign.")
sign_run-cases_example =
    sign_run-cases toy_lib no_time toy_platform suspended_identity toy_sign_request 60 toy_context
      toy_hosting (problem_result 403 ErrorCode.identity_suspended "Identity cannot sign.")
      refuses_suspended

abbrev signed_reply : Reply SignResponse
signed_reply = record {
  body = some toy_response;
  content_type = media_type;
  headers = [];
  problem = none;
  status = 200;
}

signs :
    (sign toy_lib no_time toy_platform platform_codec
      (bytes "pai_1")
      toy_sign_request
      toy_context
      (new_idempotency_store, toy_hosting)).0
    ≡ ok signed_reply
unfolding sign operation_reply execute_idempotent is_complete_input operation_input admit settle
    storable
signs = refl

sign-IsOwned_example :
    (r : IdentityRecord) × IsOwned toy_platform toy_hosting
      (bytes "pai_1")
      toy_context
      (AuthorizationRequest.sign r toy_sign_request)
      r
    × (r.service_did ≡ bytes "did:web:s")
sign-IsOwned_example =
    sign-IsOwned toy_lib no_time toy_platform platform_codec (bytes "pai_1") toy_sign_request
      toy_context new_idempotency_store toy_hosting signed_reply signs refl

minute : IsLifetime (60 * second)
minute = (60, refl, ground arith, ground arith)

accepts_request :
    validate_sign_request toy_lib.parse_url (60 * second) (300 * second) toy_sign_request
    ≡ ok (60 * second)
unfolding validate_sign_request
accepts_request = refl

signed_claims_pass_example :
    validate_client_assertion_claims toy_lib.parse_url false
      (signed_claims toy_identity toy_sign_request (60 * second) platform_now)
    ≡ []
signed_claims_pass_example =
    signed_claims_pass toy_lib.parse_url (60 * second) (300 * second) (60 * second) platform_now
      toy_identity toy_sign_request minute (λ e. ground arith) accepts_request
      (λ e. absurd (ground arith)) (ground arith, ground arith) (ground arith, ground arith)

provision-IsIndexed_example :
    IsIndexed
      (provision toy_lib toy_parse_url toy_platform platform_codec
        (record { service_did = bytes "did:web:s" })
        toy_context
        (new_idempotency_store, empty_hosting)).1.1.identities
provision-IsIndexed_example =
    provision-IsIndexed toy_lib toy_parse_url toy_platform platform_codec
      (record { service_did = bytes "did:web:s" }) toy_context new_idempotency_store empty_hosting
      new-IsIndexed

update_hosted_identity-OwnedChange_example :
    OwnedChange
      (bytes "pai_1")
      (bytes "p")
      ManagedAgentStatus.revoked
      toy_hosting.identities
      (update_hosted_identity toy_lib toy_platform
        (bytes "pai_1")
        (record { status = ManagedAgentStatus.revoked })
        toy_context
        toy_hosting).1.identities
update_hosted_identity-OwnedChange_example =
    update_hosted_identity-OwnedChange toy_lib toy_platform (bytes "pai_1")
      (record { status = ManagedAgentStatus.revoked }) toy_context toy_hosting

makes_did :
    create_service_scoped_agent_did toy_parse_url (bytes "h") [] (bytes "a")
    ≡ ok (bytes "did:web:h:agents:a")
unfolding create_service_scoped_agent_did has_prefix
makes_did = refl

create_service_scoped_agent_did_injective_example : bytes "a" ≡ bytes "a"
create_service_scoped_agent_did_injective_example =
    create_service_scoped_agent_did_injective toy_parse_url (bytes "h") [] (bytes "a") (bytes "a")
      (bytes "did:web:h:agents:a") (ground arith, tt) (ground arith, tt) makes_did makes_did

abbrev other_identity : IdentityRecord
other_identity = record toy_identity { agent_identity_id = bytes "pai_2"; created_at = 2 }

abbrev two_records : Table IdentityRecord
two_records = put (bytes "pai_1") toy_identity (put (bytes "pai_2") other_identity empty)

abbrev any_query : IdentityListQuery
any_query = record {
  descending = true;
  limit = pos 0;
  offset = pos 0;
  service_did = [];
  status = ManagedAgentStatus.unregistered [];
}

list_identities-perm_example :
    list_identities none (bytes "p") any_query (toy_identity ∷ other_identity ∷ [])
    ≡ list_identities none (bytes "p") any_query (other_identity ∷ toy_identity ∷ [])
unfolding text_eq
list_identities-perm_example =
    list_identities-perm two_records none (bytes "p") any_query (toy_identity ∷ other_identity ∷ [])
      (other_identity ∷ toy_identity ∷ []) (Permᴰ.swap refl refl) (refl, (refl, tt))

pages_cover_example :
    page_records (bytes "p") any_query (toy_identity ∷ other_identity ∷ []) 1 2 0
    ≡ ok (
        take 2 (
          drop 0 (
            sorted_records true
              (is_listed (bytes "p") any_query)
              (toy_identity ∷ other_identity ∷ []))))
pages_cover_example =
    pages_cover (bytes "p") any_query (toy_identity ∷ other_identity ∷ []) 0 2 0 (λ e. cc e)
