-- ===== src/Service/Commands/Grant.antt =====
-- service/commands.go, `Grant`
pub mod Entitled
use aep_go.Prelude.{
  Bool, Option, Outcome, Text, bytes, err, error, false, if◌then◌else◌, is_empty_list, none, not,
  ok, some, text_eq, true, ◌&&◌, ◌∷◌,
}
use aep_go.Prelude.Actions.{Action, ◌>>=◌, pure, lift}
use aep_go.Aep.Types.{
  AgentStatus, GrantRequest, AssertionOperation, ErrorCode, unsupported_grant_type,
}
use aep_go.Aep.Codec.{Stdlib, parse_grant_request}
use aep_go.Service.Commands.{
  recognized_command, valid_idempotency_key, Session, execute_command, not_recognized_reply,
  invalid_request_reply,
}
use aep_go.Service.Config.{
  Handler, external_call, Core, missing_claims, grant_handler, find_record, Service, read_clock,
  missing_document_ids,
}
use aep_go.Service.Enrollments.{clone_enrollment}
use aep_go.Service.Replies.{
  grant_lifecycle_problem, document_requirements, problem_result, success_result,
}
use aep_go.Service.Types.{CommandOptions, Reply, EnrollmentRecord, IdempotentCommand}

abbrev pub is_active : AgentStatus → Bool
is_active AgentStatus.active = true
is_active _ = false

-- `parseJSONObject`
unfoldable pub parse_json_object : Stdlib → Text → Outcome Text
parse_json_object lib value = elim (lib.unmarshal_object value) [
  | ok (some members) ↦ ok value
  | _ ↦ err (error "AEP Grant response must be a JSON object")
]

-- `validatedCredentialObject`
unfoldable pub validated_credential_object : Stdlib → Text → Outcome Text
unfolding text_eq
validated_credential_object lib value = elim (lib.unmarshal_object value) [
  | ok (some members) ↦ elim (members (bytes "credential_id")) [
    | none ↦ err (error "AEP Grant response requires a stable credential_id")
    | some raw ↦ elim (lib.unmarshal_string raw) [
      | ok (c ∷ id) ↦ ok value
      | _ ↦ err (error "AEP Grant response requires a stable credential_id")
    ]
  ]
  | _ ↦ err (error "AEP Grant response must be a JSON object")
]

-- The encoding of a body of raw JSON; a nil message is `null`.
abbrev encode_raw : Stdlib → Option Text → Outcome Text
encode_raw lib none = ok (bytes "null")
encode_raw lib (some text) = lib.marshal_raw text

module _ {W : Type 0} (lib : Stdlib) (service : Service W) where
  -- The call of a handler, and the check of what it issued.
  unfoldable pub issue_credential :
      Text → GrantRequest → EnrollmentRecord → Handler W → Action (Core W) (Reply Text)
  unfolding validated_credential_object success_result clone_enrollment
  issue_credential agent_did request r handler = lift (clone_enrollment lib r) >>= λ enrollment.
      read_clock service >>= λ now.
      external_call (
        handler.grant request (record {
          agent_did = agent_did;
          enrollment = enrollment;
          grant_type = request.grant_type;
          now = now;
        }))
      >>= λ credential. lift (validated_credential_object lib credential) >>= λ object.
          pure (success_result 200 object)

  -- The checks between finding a record and calling the handler.
  unfoldable pub grant_to :
      Text → GrantRequest → Option EnrollmentRecord → Action (Core W) (Reply Text)
  unfolding issue_credential grant_handler missing_document_ids missing_claims
  grant_to agent_did request none = pure not_recognized_reply
  grant_to agent_did request (some r) = elim (grant_handler service request.grant_type) [
    | none ↦ pure (problem_result ErrorCode.unsupported_grant_type "Unsupported grant type" 400)
    | some handler ↦
        let claims = missing_claims service r.claims in
        let ids =
          missing_document_ids service r.acknowledged_document_ids r.required_document_ids in
        if not (is_active r.status)
        then pure (grant_lifecycle_problem r)
        else if is_empty_list claims && is_empty_list ids
        then issue_credential agent_did request r handler
        else pure (document_requirements claims ids)
  ]

  unfoldable pub grant_run : Text → GrantRequest → Action (Core W) (Reply Text)
  unfolding grant_to
  grant_run agent_did request = find_record lib service agent_did >>= grant_to agent_did request

  -- `Grant`
  unfoldable pub grant :
      (body : Text) → CommandOptions → Session W → Outcome (Reply Text) × Session W
  unfolding recognized_command parse_grant_request execute_command grant_run valid_idempotency_key
      parse_json_object
  grant body options = recognized_command lib service options AssertionOperation.grant (λ claims s.
      elim (parse_grant_request lib body) [
        | err e ↦ (ok invalid_request_reply, s)
        | ok request ↦
            if not (valid_idempotency_key lib service options.idempotency_key)
            then (ok invalid_request_reply, s)
            else execute_command lib service (encode_raw lib) (parse_json_object lib) claims.subject
                IdempotentCommand.grant options.idempotency_key (lib.marshal_grant_request request)
                (grant_run claims.subject request) s
      ])
