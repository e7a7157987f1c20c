-- ===== src/Service/Config.antt =====
-- service/types.go and service/service.go: a configured Service, its collaborators, and the state
-- that its commands share. What the application supplies (verifier, policy, clock, identifiers and
-- Grant Type handlers) acts on a state `W` of its own.
use aep_go.Prelude.{
  Bool, Error, List, Option, Text, [], any, bytes, contains, if◌then◌else◌, map, none, not, ok,
  select, some, text_eq, ℕ, ◌&&◌, ◌++◌, ◌||◌, ◌∷◌,
}
use aep_go.Prelude.Actions.{Action}
use aep_go.Aep.Types.{
  Time, ClaimValues, ClientAssertionClaims, RevokeRequest, EnrollRequest, GrantRequest,
}
use aep_go.Aep.Claims.{missing_required_claim_names}
use aep_go.Aep.Codec.{Stdlib}
use aep_go.Service.Enrollments.{EnrollmentStore, find_enrollment}
use aep_go.Service.Replay.{ReplayRecords}
use aep_go.Service.Types.{
  EnrollmentRecord, EnrollmentDecision, GrantContext, AssertionVerificationContext, RevokeContext,
}

-- `ClaimValueLimits`, not negative.
pub record ClaimValueLimits : Type 0 where
  pub max_encoded_bytes : ℕ
  pub max_member_count : ℕ
  pub max_object_depth : ℕ
  pub max_string_length : ℕ

-- `aep.ServiceDocument`, as far as the commands read it.
pub record ServiceDocument : Type 0 where
  pub id : Text
  pub enrollment : Text

-- A Grant Type with its handler and the part of its configuration that `Revoke` reads.
pub record Handler (W : Type 0) : Type 0 where
  pub grant_type : Text
  pub supports_per_credential_revoke : Text
  pub grant : GrantRequest → GrantContext → Action W Text
  pub revoke : RevokeRequest → RevokeContext → Action W (Unit {0})

-- `Service`. Its handlers are listed in the order of their Grant Types, each of which has one.
pub record Service (W : Type 0) : Type 0 where
  pub supports_documents : Bool
  pub allow_insecure_loopback : Bool
  pub clock_skew : ℕ
  pub maximum_lifetime : ℕ
  pub claim_value_limits : ClaimValueLimits
  pub service_did : Text
  pub identity_methods : List Text
  pub signing_algorithms : List Text
  pub required_claims : Option (List Text)
  pub service_documents : List ServiceDocument
  pub handlers : List (Handler W)
  pub verifier : Text → AssertionVerificationContext → Action W ClientAssertionClaims
  pub decide_enrollment : EnrollRequest → Time → Action W EnrollmentDecision
  pub identifier : Action W Text
  pub clock : W → Time × W
  -- `ctx.Err()`
  pub cancelled : W → Option Error

-- What a command may change besides the idempotency store.
pub record Core (W : Type 0) : Type 0 where
  pub enrollments : EnrollmentStore
  pub replays : ReplayRecords
  pub external : W

-- A call of a collaborator.
abbrev pub external_call : {W A : Type 0} → Action W A → Action (Core W) A
external_call call s = let (outcome, w) = call s.external in (outcome, record s { external = w })

abbrev pub read_clock : {W : Type 0} → Service W → Action (Core W) Time
read_clock service s =
    let (now, w) = service.clock s.external in (ok now, record s { external = w })

-- `FindEnrollment` of the Service's store.
abbrev pub find_record :
    {W : Type 0} → Stdlib → Service W → Text → Action (Core W) (Option EnrollmentRecord)
find_record lib service agent_did s =
    (find_enrollment lib (service.cancelled s.external) agent_did s.enrollments, s)

abbrev find_handler : {W : Type 0} → List (Handler W) → Text → Option (Handler W)
find_handler [] grant_type = none
find_handler (h ∷ handlers) grant_type =
    if text_eq h.grant_type grant_type then some h else find_handler handlers grant_type

-- `service.grantHandlers[grantType]`
unfoldable pub grant_handler : {W : Type 0} → Service W → Text → Option (Handler W)
unfolding text_eq
grant_handler service grant_type = find_handler service.handlers grant_type

-- `service.missingClaims`
unfoldable pub missing_claims : {W : Type 0} → Service W → Option ClaimValues → List Text
missing_claims service claims = elim service.required_claims [
  | none ↦ []
  | some required ↦ missing_required_claim_names required claims
]

-- `service.missingDocumentIDs`, for the lists of acknowledged and required documents of a record
unfoldable pub missing_document_ids :
    {W : Type 0} → Service W → (acknowledged required : List Text) → List Text
unfolding text_eq contains
missing_document_ids service acknowledged required =
    map (λ (d : ServiceDocument). d.id)
      (select
        (λ (d : ServiceDocument).
          text_eq d.enrollment (bytes "required")
          && (not (contains acknowledged d.id) || contains required d.id))
        service.service_documents)

abbrev accept_ids : List ServiceDocument → List Text → List Text → List Text
accept_ids documents ids [] = ids
accept_ids documents ids (id ∷ declared) =
    accept_ids documents
      (if not (contains ids id) && any (λ (d : ServiceDocument). text_eq d.id id) documents
        then ids ++ (id ∷ [])
        else ids)
      declared

-- `service.acceptedDocumentIDs`
unfoldable pub accepted_document_ids :
    {W : Type 0} → Service W → (existing declared : List Text) → List Text
unfolding text_eq contains
accepted_document_ids service existing declared =
    accept_ids service.service_documents existing declared
