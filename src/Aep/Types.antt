-- ===== src/Aep/Types.antt =====
-- types.go, constants.go and errors.go: the wire model of the protocol. A Go `string` is `Text`; a
-- string type with registered values is a data type with one more constructor for any other string.
use aep_go.Prelude.{
  Bool, List, Option, String, Table, Text, bytes, none, text_eq, ℕ, ◌*◌, ◌++◌, ◌/◌,
}
use aep_go.Prelude.Int64.{sub_ℕ, ℤ}

-- `time.Time`: nanoseconds since the zero time, January 1, year 1 UTC.
abbrev pub Time : Type 0
Time = ℕ

-- `time.Duration`, in nanoseconds.
abbrev pub second : ℕ
second = 1_000_000_000

abbrev pub hour : ℕ
hour = 3600 * second

-- `t.Unix()`: whole seconds since January 1, 1970 UTC.
abbrev pub unix : Time → ℤ
unix t = sub_ℕ (t / second) 62_135_596_800

abbrev pub media_type : Text
media_type = bytes "application/aep+json"

abbrev pub problem_media_type : Text
problem_media_type = bytes "application/problem+json"

-- `MaxAssertionLifetime` and `RecommendedClockSkew`, in seconds.
abbrev pub max_assertion_lifetime : ℕ
max_assertion_lifetime = 300

abbrev pub recommended_clock_skew : ℕ
recommended_clock_skew = 30

pub data AssertionOperation : Type 0 where
  enroll grant revoke status authenticate : AssertionOperation
  unregistered : Text → AssertionOperation

unfoldable pub operation_text : AssertionOperation → Text
operation_text AssertionOperation.enroll = bytes "enroll"
operation_text AssertionOperation.grant = bytes "grant"
operation_text AssertionOperation.revoke = bytes "revoke"
operation_text AssertionOperation.status = bytes "status"
operation_text AssertionOperation.authenticate = bytes "authenticate"
operation_text (AssertionOperation.unregistered text) = text

unfoldable pub operation_eq : AssertionOperation → AssertionOperation → Bool
unfolding operation_text text_eq
operation_eq a b = text_eq (operation_text a) (operation_text b)

pub data AgentStatus : Type 0 where
  active pending rejected suspended terminated unavailable : AgentStatus
  unregistered : Text → AgentStatus

-- `unset` is the empty string.
pub data EnrollmentStatus : Type 0 where
  unset active pending rejected : EnrollmentStatus
  unregistered : Text → EnrollmentStatus

pub data ErrorCode : Type 0 where
  enrollment_failed invalid_request not_recognized identity_suspended : ErrorCode
  identity_terminated identity_unavailable verification_pending : ErrorCode
  verification_timeout requirements_unmet rate_limited unsupported_grant_type : ErrorCode
  idempotency_conflict authentication_required unsupported_authentication_method : ErrorCode
  insufficient_scope : ErrorCode

unfoldable pub code_text : ErrorCode → Text
code_text ErrorCode.enrollment_failed = bytes "enrollment_failed"
code_text ErrorCode.invalid_request = bytes "invalid_request"
code_text ErrorCode.not_recognized = bytes "not_recognized"
code_text ErrorCode.identity_suspended = bytes "identity_suspended"
code_text ErrorCode.identity_terminated = bytes "identity_terminated"
code_text ErrorCode.identity_unavailable = bytes "identity_unavailable"
code_text ErrorCode.verification_pending = bytes "verification_pending"
code_text ErrorCode.verification_timeout = bytes "verification_timeout"
code_text ErrorCode.requirements_unmet = bytes "requirements_unmet"
code_text ErrorCode.rate_limited = bytes "rate_limited"
code_text ErrorCode.unsupported_grant_type = bytes "unsupported_grant_type"
code_text ErrorCode.idempotency_conflict = bytes "idempotency_conflict"
code_text ErrorCode.authentication_required = bytes "authentication_required"
code_text ErrorCode.unsupported_authentication_method = bytes "unsupported_authentication_method"
code_text ErrorCode.insufficient_scope = bytes "insufficient_scope"

pub record ContactAddress : Type 0 where
  pub city : Option Text
  pub country : Text
  pub first_name : Text
  pub last_name : Text
  pub line1 : Text
  pub line2 : Text
  pub line3 : Text
  pub postcode : Text
  pub region : Text
  pub additional : Table Text

pub record ClaimValues : Type 0 where
  pub contact_address_primary : Option ContactAddress
  pub contact_email : Option Text
  pub contact_mobile : Option Text
  pub person_birthdate : Option Text
  pub person_first_name : Option Text
  pub person_last_name : Option Text
  pub person_username : Option Text
  pub additional : Table Text

-- A nil list of acknowledged documents is `none`.
pub record EnrollRequest : Type 0 where
  pub acknowledged_document_ids : Option (List Text)
  pub agent_did : Text
  pub claims : Option ClaimValues
  pub idempotency_key : Text

pub record EnrollResponse : Type 0 where
  pub acknowledged_document_ids : Option (List Text)
  pub status : AgentStatus
  pub owner_action_required : Option Text
  pub verification_pending : Option (List Text)
  pub requirements_pending : Option (List Text)

pub record StatusResponse : Type 0 where
  pub status : AgentStatus
  pub owner_action_required : Option Text
  pub verification_pending : Option (List Text)
  pub requirements_pending : Option (List Text)
  pub since : Text

pub record GrantRequest : Type 0 where
  pub grant_type : Text
  pub requested_scopes : List Text

pub record RevokeRequest : Type 0 where
  pub grant_type : Text
  pub credential_id : Text
  pub all_grant_types : Text

pub record ClientAssertionClaims : Type 0 where
  pub audience : Text
  pub expires_at : ℤ
  pub issued_at : ℤ
  pub issuer : Text
  pub jwt_id : Text
  pub operation : AssertionOperation
  pub resource : Text
  pub subject : Text

pub record ProblemDetails : Type 0 where
  pub required_document_ids : Option (List Text)
  pub type_uri : Text
  pub title : String
  pub status : ℕ
  pub code : ErrorCode
  pub owner_action_required : Option Text
  pub requirements_pending : Option (List Text)
  pub verification_pending : Option (List Text)

unfoldable pub new_problem_details : ErrorCode → String → ℕ → ProblemDetails
unfolding code_text
new_problem_details code title http_status = record {
  required_document_ids = none;
  type_uri = bytes "urn:aep:error:" ++ code_text code;
  title = title;
  status = http_status;
  code = code;
  owner_action_required = none;
  requirements_pending = none;
  verification_pending = none;
}
