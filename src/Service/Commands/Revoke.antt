-- ===== src/Service/Commands/Revoke.antt =====
-- service/commands.go, `Revoke`
use aep_go.Prelude.{
  List, Option, Outcome, Text, [], bytes, err, error, if◌then◌else◌, is_empty, none, not, ok, some,
  text_eq, ◌&&◌, ◌∷◌,
}
use aep_go.Prelude.Actions.{Action, ◌>>=◌, ◌>>◌, pure, raise, lift}
use aep_go.Aep.Codec.{Stdlib, parse_revoke_request}
use aep_go.Aep.Types.{Time, AssertionOperation, RevokeRequest, ErrorCode}
use aep_go.Service.Commands.{
  recognized_command, valid_idempotency_key, Session, execute_command, not_recognized_reply,
  invalid_request_reply,
}
use aep_go.Service.Config.{
  Handler, external_call, Core, grant_handler, find_record, Service, read_clock,
}
use aep_go.Service.Enrollments.{clone_enrollment}
use aep_go.Service.Replies.{problem_result, success_result}
use aep_go.Service.Types.{CommandOptions, Reply, RevokeContext, EnrollmentRecord, IdempotentCommand}

abbrev encode_empty : Option (Unit {0}) → Outcome Text
encode_empty _ = ok (bytes "{}")

module _ {W : Type 0} (lib : Stdlib) (service : Service W) where
  abbrev revoke_context : Text → EnrollmentRecord → Text → Time → RevokeContext
  revoke_context agent_did r grant_type now = record {
    agent_did = agent_did;
    enrollment = r;
    grant_type = grant_type;
    now = now;
  }

  -- The loop over all handlers; the first failure ends it.
  unfoldable pub revoke_all :
      Text → RevokeRequest → EnrollmentRecord → Time → List (Handler W) → Action (Core W) (Unit {0})
  revoke_all agent_did request r now [] = pure tt
  revoke_all agent_did request r now (handler ∷ handlers) =
      external_call (handler.revoke request (revoke_context agent_did r handler.grant_type now))
      >> revoke_all agent_did request r now handlers

  -- `none` when the request may go on to the handlers
  unfoldable pub revoke_refusal : RevokeRequest → Option (Reply (Unit {0}))
  unfolding grant_handler problem_result text_eq
  revoke_refusal request =
      if is_empty request.grant_type
      then none
      else elim (grant_handler service request.grant_type) [
        | none ↦ some (problem_result ErrorCode.unsupported_grant_type "Unsupported grant type" 400)
        | some handler ↦
            if not (is_empty request.credential_id)
              && not (text_eq handler.supports_per_credential_revoke (bytes "true"))
            then some invalid_request_reply
            else none
      ]

  unfoldable pub revoke_with :
      Text → RevokeRequest → EnrollmentRecord → Action (Core W) (Reply (Unit {0}))
  unfolding revoke_all success_result grant_handler text_eq
  revoke_with agent_did request enrollment = read_clock service >>= λ now.
      (if text_eq request.all_grant_types (bytes "true")
        then revoke_all agent_did request enrollment now service.handlers
        else (elim (grant_handler service request.grant_type) [
          | none ↦ raise (error "runtime error: invalid memory address or nil pointer dereference")
          | some handler ↦
              external_call (
                handler.revoke request (revoke_context agent_did enrollment request.grant_type now))
        ]))
      >> pure (success_result 200 tt)

  unfoldable pub revoke_from :
      Text → RevokeRequest → Option EnrollmentRecord → Action (Core W) (Reply (Unit {0}))
  unfolding revoke_refusal revoke_with clone_enrollment
  revoke_from agent_did request none = pure not_recognized_reply
  revoke_from agent_did request (some r) = elim (revoke_refusal request) [
    | some refusal ↦ pure refusal
    | none ↦ lift (clone_enrollment lib r) >>= revoke_with agent_did request
  ]

  unfoldable pub revoke_run : Text → RevokeRequest → Action (Core W) (Reply (Unit {0}))
  unfolding revoke_from
  revoke_run agent_did request = find_record lib service agent_did >>= revoke_from agent_did request

  -- `Revoke`
  unfoldable pub revoke :
      (body : Text) → CommandOptions → Session W → Outcome (Reply (Unit {0})) × Session W
  unfolding recognized_command parse_revoke_request execute_command revoke_run valid_idempotency_key
  revoke body options =
      recognized_command lib service options AssertionOperation.revoke (λ claims s.
        elim (parse_revoke_request lib body) [
          | err e ↦ (ok invalid_request_reply, s)
          | ok request ↦
              if not (valid_idempotency_key lib service options.idempotency_key)
              then (ok invalid_request_reply, s)
              else execute_command lib service encode_empty lib.decode_revoke_response
                  claims.subject IdempotentCommand.revoke options.idempotency_key
                  (lib.marshal_revoke_request request) (revoke_run claims.subject request) s
        ])
