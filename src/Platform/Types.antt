-- ===== src/Platform/Types.antt =====
-- platform/types.go: the record of a hosted agent identity.
use aep_go.Prelude.{Bool, List, Option, Table, Text, false, true, ℕ}
use aep_go.Prelude.Int64.{ℤ}
use aep_go.Aep.Types.{Time, AssertionOperation}

pub data ManagedAgentStatus : Type 0 where
  active revoked suspended terminated : ManagedAgentStatus
  unregistered : Text → ManagedAgentStatus

-- `isManagedAgentStatus`
unfoldable pub is_managed_agent_status : ManagedAgentStatus → Bool
is_managed_agent_status (ManagedAgentStatus.unregistered _) = false
is_managed_agent_status _ = true

abbrev pub is_active_status : ManagedAgentStatus → Bool
is_active_status ManagedAgentStatus.active = true
is_active_status _ = false

pub record IdentityRecord : Type 0 where
  pub agent_did : Text
  pub agent_did_id : Text
  pub agent_identity_id : Text
  pub created_at : Time
  pub did_document_url : Text
  pub key_id : Text
  pub principal : Text
  pub service_did : Text
  pub signing_algorithms : List Text
  pub status : ManagedAgentStatus
  pub updated_at : Time

pub record RequestContext : Type 0 where
  pub authorization : Text
  pub idempotency_key : Text
  pub now : Time
  pub principal : Text
  pub request_id : Text

pub record ProvisionRequest : Type 0 where
  pub service_did : Text

pub record LifecycleRequest : Type 0 where
  pub status : ManagedAgentStatus

pub record SignRequest : Type 0 where
  pub jwt_id : Text
  pub lifetime_seconds : Text
  pub operation : AssertionOperation
  pub platform_context : Option (Table Text)
  pub resource : Text
  pub service_did : Text

pub record VerificationRequest : Type 0 where
  pub client_assertion : Text
  pub operation : AssertionOperation
  pub resource : Text
  pub service_did : Text

-- The empty status asks for any.
pub record IdentityListQuery : Type 0 where
  pub descending : Bool
  pub limit : ℤ
  pub offset : ℤ
  pub service_did : Text
  pub status : ManagedAgentStatus

pub record IdentityListResult : Type 0 where
  pub identities : List IdentityRecord
  pub total : ℕ

pub record AgentIdentity : Type 0 where
  pub agent_did : Text
  pub agent_identity_id : Text
  pub created_at : Text
  pub did_document_url : Text
  pub key_id : Text
  pub service_did : Text
  pub signing_algorithms : List Text
  pub status : ManagedAgentStatus
  pub updated_at : Text

pub record AgentIdentityListResponse : Type 0 where
  pub count : Text
  pub identities : List AgentIdentity
  pub total : Text

pub data SignStatus : Type 0 where
  completed pending : SignStatus
  unregistered : Text → SignStatus

pub record SignResponse : Type 0 where
  pub agent_did : Text
  pub client_assertion : Text
  pub expires_at : Text
  pub issued_at : Text
  pub jwt_id : Text
  pub platform_context : Option (Table Text)
  pub retry_after_seconds : Text
  pub service_did : Text
  pub status : SignStatus

pub record VerificationResponse : Type 0 where
  pub agent_did : Text
  pub agent_identity_id : Text
  pub operation : AssertionOperation
  pub reason : Text
  pub service_did : Text
  pub status : ManagedAgentStatus
  pub verified : Bool

-- `AuthorizationRequest`: an operation with the fields that it sets.
pub data AuthorizationRequest : Type 0 where
  get_identity : IdentityRecord → AuthorizationRequest
  list_identities : IdentityListQuery → AuthorizationRequest
  provision_identity : ProvisionRequest → AuthorizationRequest
  sign : IdentityRecord → SignRequest → AuthorizationRequest
  update_identity : IdentityRecord → LifecycleRequest → AuthorizationRequest
  verify : IdentityRecord → VerificationRequest → AuthorizationRequest

pub data IdempotentOperation : Type 0 where
  hosted_verification provision sign : IdempotentOperation

unfoldable pub idempotent_operation_eq : IdempotentOperation → IdempotentOperation → Bool
idempotent_operation_eq hosted_verification hosted_verification = true
idempotent_operation_eq provision provision = true
idempotent_operation_eq sign sign = true
idempotent_operation_eq _ _ = false
