-- ===== src/Service/Commands/Enroll.antt =====
-- service/commands.go, `Enroll`
pub mod Records
use aep_go.Prelude.{
  Bool, List, Option, Outcome, Text, [], blocked, err, error, false, if◌then◌else◌, inl, inr,
  is_empty, is_empty_list, none, not, ok, some, text_eq, true, unmet, ◌&&◌, ◌||◌,
}
use aep_go.Prelude.Actions.{Action, ◌>>=◌, ◌>>◌, pure, raise, lift}
use aep_go.Aep.Types.{
  EnrollmentStatus, AgentStatus, Time, EnrollRequest, EnrollResponse, AssertionOperation,
}
use aep_go.Aep.Codec.{clone_claim_values, Stdlib, parse_enroll_response, parse_enroll_request}
use aep_go.Aep.Issues.{validate_enroll_response, validation_result}
use aep_go.Service.Commands.{
  recognized_command, valid_idempotency_key, Session, execute_command, invalid_request_reply,
}
use aep_go.Service.Config.{Core, missing_claims, find_record, accepted_document_ids, Service}
use aep_go.Service.Documents.{missing_for_request, update_enrollment}
use aep_go.Service.Enrollments.{find_or_create_enrollment}
use aep_go.Service.Limits.{claim_values_within_limits}
use aep_go.Service.Replies.{
  enrollment_response, valid_enrollment_decision_status, document_requirements, enrollment_result,
  agent_status, success_result,
}
use aep_go.Service.Types.{
  CommandOptions, Reply, EnrollmentRecord, EnrollmentDecision, IdempotentCommand,
}

abbrev pub status_or_active : EnrollmentStatus → EnrollmentStatus
status_or_active EnrollmentStatus.unset = EnrollmentStatus.active
status_or_active decided = decided

abbrev is_rejected : EnrollmentStatus → Bool
is_rejected EnrollmentStatus.rejected = true
is_rejected _ = false

abbrev is_rejected_agent : AgentStatus → Bool
is_rejected_agent AgentStatus.rejected = true
is_rejected_agent _ = false

abbrev or_nil : Option (List Text) → List Text
or_nil none = []
or_nil (some values) = values

abbrev or_false : Option Bool → Bool
or_false none = false
or_false (some b) = b

abbrev zero_enroll_response : EnrollResponse
zero_enroll_response = record {
  acknowledged_document_ids = none;
  status = AgentStatus.unregistered [];
  owner_action_required = none;
  verification_pending = none;
  requirements_pending = none;
}

module _ {W : Type 0} (lib : Stdlib) (service : Service W) where
  abbrev clock_reading : Action W Time
  clock_reading w = let (now, w') = service.clock w in (ok now, w')

  -- The record that a decision leads to, with what the create function asks for on the way.
  unfoldable pub decided_record :
      Text → EnrollRequest → Time → EnrollmentDecision → Action W EnrollmentRecord
  unfolding valid_enrollment_decision_status validation_result validate_enroll_response
      enrollment_response agent_status accepted_document_ids clone_claim_values
  decided_record agent_did request now decision =
      let decided = status_or_active decision.status in
      let owner_action = or_false decision.owner_action_required in
      let verification = or_nil decision.verification_pending in
      let requirements = or_nil decision.requirements_pending in
      if not (valid_enrollment_decision_status decided)
      then raise (error "AEP enrollment policy returned an invalid initial status")
      else (lift (
            validation_result (
              validate_enroll_response (
                enrollment_response (agent_status decided) owner_action verification requirements)))
          >> (service.identifier >>= λ identifier.
              if is_empty identifier
              then raise (error "AEP enrollment identifier provider returned an empty identifier")
              else (lift (clone_claim_values lib request.claims) >>= λ claims. pure (record {
                acknowledged_document_ids =
                    if is_rejected decided
                    then []
                    else accepted_document_ids service []
                        (or_nil request.acknowledged_document_ids);
                required_document_ids = [];
                agent_did = agent_did;
                claims = claims;
                created_at = now;
                enrollment_id = identifier;
                owner_action_required = owner_action;
                requirements_pending = requirements;
                since = now;
                status = agent_status decided;
                updated_at = now;
                verification_pending = verification;
              }))))

  -- The create function that `Enroll` gives to the enrollment store.
  unfoldable pub create_record : Text → EnrollRequest → Action W EnrollmentRecord
  unfolding missing_claims missing_for_request decided_record
  create_record agent_did request =
      if is_empty_list (missing_claims service request.claims)
        && is_empty_list (missing_for_request service request [] [])
      then (clock_reading >>= λ now.
          service.decide_enrollment request now >>= decided_record agent_did request now)
      else raise (
          unmet (missing_claims service request.claims) (missing_for_request service request [] []))

  -- `FindOrCreateEnrollment` of the Service's store
  unfoldable pub find_or_create : Text → EnrollRequest → Action (Core W) (EnrollmentRecord × Bool)
  unfolding find_or_create_enrollment create_record
  find_or_create agent_did request s =
      let (outcome, enrollments, w) =
        find_or_create_enrollment lib (service.cancelled s.external) agent_did
          (create_record agent_did request) (s.enrollments, s.external) in
      (outcome, record s { enrollments = enrollments; external = w })

  -- What a new record, or one that another caller has just made, is answered with.
  unfoldable pub new_reply : EnrollRequest → EnrollmentRecord → Outcome (Reply EnrollResponse)
  unfolding enrollment_result success_result validate_enroll_response validation_result
  new_reply request r = elim (enrollment_result r) [
    | inr lifecycle ↦ ok lifecycle
    | inl response ↦
        let answered = record response {
          acknowledged_document_ids =
              if is_rejected_agent response.status
              then response.acknowledged_document_ids
              else request.acknowledged_document_ids;
        } in
        elim (validation_result (validate_enroll_response answered)) [
          | err e ↦ err e
          | ok _ ↦ ok (success_result 200 answered)
        ]
  ]

  unfoldable pub enroll_new : Text → EnrollRequest → Action (Core W) (Reply EnrollResponse)
  unfolding find_or_create document_requirements new_reply
  enroll_new agent_did request s =
      let (outcome, s') = find_or_create agent_did request s in
      elim outcome [
        | err (unmet requirements ids) ↦ (ok (document_requirements requirements ids), s')
        | err (error text) ↦ (err (error text), s')
        | err blocked ↦ (err blocked, s')
        | ok (r, is_new) ↦ (new_reply request r, s')
      ]

  -- `if !service.supportsDocuments { request.AcknowledgedDocumentIDs = nil }`
  abbrev pub supported_request : EnrollRequest → EnrollRequest
  supported_request request = record request {
    acknowledged_document_ids =
        if service.supports_documents then request.acknowledged_document_ids else none;
  }

  unfoldable pub enroll_run : Text → EnrollRequest → Action (Core W) (Reply EnrollResponse)
  unfolding update_enrollment enroll_new
  enroll_run agent_did request = find_record lib service agent_did >>= λ found. elim found [
    | some r ↦ update_enrollment lib service (supported_request request) r
    | none ↦ enroll_new agent_did (supported_request request)
  ]

  -- The checks of an enroll request against the assertion and the options.
  unfoldable pub is_acceptable_request : CommandOptions → Text → EnrollRequest → Bool
  unfolding claim_values_within_limits valid_idempotency_key text_eq
  is_acceptable_request options agent_did request =
      text_eq request.agent_did agent_did
      && claim_values_within_limits lib service.claim_value_limits request.claims
      && valid_idempotency_key lib service options.idempotency_key
      && (is_empty request.idempotency_key
          || text_eq request.idempotency_key options.idempotency_key)

  abbrev encode_enroll_response : Option EnrollResponse → Outcome Text
  encode_enroll_response none = lib.marshal_enroll_response zero_enroll_response
  encode_enroll_response (some response) = lib.marshal_enroll_response response

  -- `Enroll`
  unfoldable pub enroll :
      (body : Text) → CommandOptions → Session W → Outcome (Reply EnrollResponse) × Session W
  unfolding recognized_command parse_enroll_request parse_enroll_response execute_command enroll_run
      is_acceptable_request
  enroll body options =
      recognized_command lib service options AssertionOperation.enroll (λ claims s.
        elim (parse_enroll_request lib body) [
          | err e ↦ (ok invalid_request_reply, s)
          | ok request ↦
              if not (is_acceptable_request options claims.subject request)
              then (ok invalid_request_reply, s)
              else execute_command lib service encode_enroll_response (parse_enroll_response lib)
                  claims.subject IdempotentCommand.enroll options.idempotency_key
                  (lib.marshal_enroll_request request) (enroll_run claims.subject request) s
        ])
