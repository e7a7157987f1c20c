-- ===== src/Service/Types.antt =====
-- service/types.go: the records that the stores and the command handlers of a Service exchange.
use aep_go.Prelude.{
  Bool, List, Option, Text, false, if◌then◌else◌, is_empty, not, text_eq, true, ℕ, ◌&&◌, ◌||◌,
}
use aep_go.Prelude.Int64.{ℤ}
use aep_go.Aep.Types.{Time, AgentStatus, EnrollmentStatus, AssertionOperation, ClaimValues}
pub use aep_go.Aep.Responses.{
  Header, Reply, StoredResponse, IdempotencyResult, created, replayed, conflict,
}

pub record CommandOptions : Type 0 where
  pub client_assertion : Text
  pub idempotency_key : Text

pub record AssertionVerificationContext : Type 0 where
  pub allow_insecure_loopback : Bool
  pub clock_tolerance : ℕ
  pub current_time : Time
  pub idempotency_key : Text
  pub operation : AssertionOperation
  pub resource : Text
  pub service_did : Text
  pub signing_algorithms : List Text

pub record ReplayRecord : Type 0 where
  pub expires_at : ℤ
  pub jwt_id : Text
  pub subject : Text

pub record EnrollmentRecord : Type 0 where
  pub acknowledged_document_ids : List Text
  pub required_document_ids : List Text
  pub agent_did : Text
  pub claims : Option ClaimValues
  pub created_at : Time
  pub enrollment_id : Text
  pub owner_action_required : Bool
  pub requirements_pending : List Text
  pub since : Time
  pub status : AgentStatus
  pub updated_at : Time
  pub verification_pending : List Text

-- A nil slice or pointer is `none`: `updateEnrollment` tells it from an empty one.
pub record EnrollmentDecision : Type 0 where
  pub update_existing : Option Bool
  pub owner_action_required : Option Bool
  pub requirements_pending : Option (List Text)
  pub status : EnrollmentStatus
  pub verification_pending : Option (List Text)

pub data IdempotentCommand : Type 0 where
  enroll grant revoke : IdempotentCommand

unfoldable pub command_eq : IdempotentCommand → IdempotentCommand → Bool
command_eq enroll enroll = true
command_eq grant grant = true
command_eq revoke revoke = true
command_eq _ _ = false

pub record IdempotencyInput : Type 0 where
  pub canonical_request_hash : Text
  pub agent_did : Text
  pub command : IdempotentCommand
  pub idempotency_key : Text
  pub request_hash : Text

-- `IdempotencyInput.Matches`
unfoldable pub matches : IdempotencyInput → IdempotencyInput → Bool
unfolding command_eq text_eq
matches input other =
    if not (text_eq input.agent_did other.agent_did)
      || not (command_eq input.command other.command)
      || not (text_eq input.idempotency_key other.idempotency_key)
    then false
    else if not (is_empty input.canonical_request_hash)
        && not (is_empty other.canonical_request_hash)
    then text_eq input.canonical_request_hash other.canonical_request_hash
    else text_eq input.request_hash other.request_hash

pub record GrantContext : Type 0 where
  pub agent_did : Text
  pub enrollment : EnrollmentRecord
  pub grant_type : Text
  pub now : Time

pub record RevokeContext : Type 0 where
  pub agent_did : Text
  pub enrollment : EnrollmentRecord
  pub grant_type : Text
  pub now : Time
