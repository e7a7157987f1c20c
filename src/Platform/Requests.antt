-- ===== src/Platform/Requests.antt =====
-- platform/platform.go and platform/verification.go: the checks of requests and of the results of a
-- sign handler.
use aep_go.Prelude.{
  Bool, Option, Outcome, Text, [], bytes, err, error, fail_if, false, if◌then◌else◌, is_empty, leb,
  ltb, none, not, ok, some, text_eq, true, ℕ, ◌&&◌, ◌*◌, ◌-◌, ◌/◌, ◌==◌, ◌>>◌, ◌||◌, ◌∷◌,
}
use aep_go.Aep.Responses.{Reply, Header}
use aep_go.Platform.Types.{
  SignStatus, IdentityRecord, SignRequest, SignResponse, VerificationRequest,
}
use aep_go.Aep.Assertion.{is_authenticate, Url}
use aep_go.Aep.Issues.{validate_problem_details, validation_result}
use aep_go.Aep.Types.{
  second, AssertionOperation, max_assertion_lifetime, problem_media_type, Time, media_type,
}
use aep_go.Platform.Identifiers.{is_did, canonical_positive_integer}

-- `isAbsoluteHTTPSURL`
unfoldable pub is_absolute_https_url : (Text → Option Url) → Text → Bool
unfolding text_eq
is_absolute_https_url parse_url value = elim (parse_url value) [
  | none ↦ false
  | some parsed ↦
      text_eq parsed.scheme (bytes "https")
      && not (is_empty parsed.hostname)
      && not parsed.has_user
      && is_empty parsed.fragment
]

-- `isAssertionOperation`
unfoldable pub is_assertion_operation : AssertionOperation → Bool
is_assertion_operation (AssertionOperation.unregistered _) = false
is_assertion_operation _ = true

-- What signing and verification ask of a resource.
unfoldable pub validate_resource :
    (Text → Option Url) → AssertionOperation → Text → Outcome (Unit {0})
unfolding is_absolute_https_url
validate_resource parse_url operation resource =
    if is_authenticate operation
    then fail_if (not (is_absolute_https_url parse_url resource))
        (error "resource must be an absolute HTTPS URL for authenticate")
    else fail_if (not (is_empty resource)) (error "resource is only permitted for authenticate")

-- The lifetime that `validateSignRequest` returns, in nanoseconds.
unfoldable pub requested_lifetime : (default_lifetime maximum_lifetime : ℕ) → Text → Outcome ℕ
unfolding canonical_positive_integer
requested_lifetime default_lifetime maximum_lifetime [] = ok default_lifetime
requested_lifetime default_lifetime maximum_lifetime (c ∷ text) =
    elim (canonical_positive_integer (c ∷ text)) [
      | none ↦ err (error "lifetime_seconds must be a positive integer string")
      | some seconds ↦
          if ltb (maximum_lifetime / second) seconds || ltb max_assertion_lifetime seconds
          then err (error "lifetime_seconds exceeds the configured maximum")
          else ok (seconds * second)
    ]

-- `validateSignRequest`
unfoldable pub validate_sign_request :
    (Text → Option Url) → (default_lifetime maximum_lifetime : ℕ) → SignRequest → Outcome ℕ
unfolding is_assertion_operation is_did validate_resource requested_lifetime
validate_sign_request parse_url default_lifetime maximum_lifetime request = do
  fail_if
      (is_empty request.jwt_id
        || not (is_assertion_operation request.operation)
        || not (is_did request.service_did))
      (error "AEP Platform signing request is invalid")
  validate_resource parse_url request.operation request.resource
  requested_lifetime default_lifetime maximum_lifetime request.lifetime_seconds

-- `validateVerificationRequest`
unfoldable pub validate_verification_request :
    (Text → Option Url) → VerificationRequest → Outcome (Unit {0})
unfolding is_assertion_operation is_did validate_resource
validate_verification_request parse_url request = do
  fail_if
      (is_empty request.client_assertion
        || not (is_assertion_operation request.operation)
        || not (is_did request.service_did))
      (error "AEP Platform verification request is invalid")
  validate_resource parse_url request.operation request.resource

abbrev retry_after_name : Text
retry_after_name = bytes "Retry-After"

-- `Headers.Get`, the empty string for a missing field
abbrev header_value : Text → Header → Text
header_value name [] = []
header_value name (field ∷ fields) =
    let rest = header_value name fields in if text_eq field.0 name then field.1 else rest

-- Both times parse, and the second is later, by at most 300 seconds.
abbrev is_short_interval : Option Time → Option Time → Bool
is_short_interval (some issued) (some expires) =
    ltb issued expires && leb (expires - issued) (max_assertion_lifetime * second)
is_short_interval _ _ = false

abbrev is_completed : SignStatus → Bool
is_completed SignStatus.completed = true
is_completed _ = false

abbrev is_pending : SignStatus → Bool
is_pending SignStatus.pending = true
is_pending _ = false

-- The check of `seconds` in `validateSignResult`
abbrev is_retry_interval : Option ℕ → Bool
is_retry_interval none = false
is_retry_interval (some seconds) = leb seconds 300

unfoldable pub validate_sign_body :
    (Text → Option Time)
    → Reply SignResponse
    → SignResponse
    → IdentityRecord
    → SignRequest
    → Outcome (Unit {0})
unfolding text_eq canonical_positive_integer
validate_sign_body parse_time result body identity request =
    if is_pending body.status
    then fail_if
        (not (text_eq result.content_type media_type)
          || not (result.status == 202)
          || not (is_retry_interval (canonical_positive_integer body.retry_after_seconds)))
        (error "AEP Platform sign handler returned an invalid pending response")
    else fail_if
        (not (is_completed body.status)
          || not (text_eq result.content_type media_type)
          || not (result.status == 200)
          || not (text_eq body.agent_did identity.agent_did)
          || is_empty body.client_assertion
          || not (is_short_interval (parse_time body.issued_at) (parse_time body.expires_at))
          || not (text_eq body.jwt_id request.jwt_id)
          || not (text_eq body.service_did request.service_did))
        (error "AEP Platform sign handler returned an invalid completed response")

-- `validateSignResult`; `parse_time` is `time.Parse(time.RFC3339, ...)`. The zero value of a body
-- is not completed.
unfoldable pub validate_sign_result :
    (Text → Option Time) → Reply SignResponse → IdentityRecord → SignRequest → Outcome (Unit {0})
unfolding text_eq validate_problem_details validation_result validate_sign_body
validate_sign_result parse_time result identity request =
    fail_if (not (is_empty (header_value retry_after_name result.headers)))
      (error "AEP Platform sign handler must not send a Retry-After header")
    >> elim result.problem [
      | some problem ↦
          fail_if
            (not (text_eq result.content_type problem_media_type)
              || not (result.status == problem.status))
            (error "AEP Platform sign handler returned an invalid Problem Details response")
          >> validation_result (validate_problem_details problem)
      | none ↦ elim result.body [
        | none ↦ err (error "AEP Platform sign handler returned an invalid completed response")
        | some body ↦ validate_sign_body parse_time result body identity request
      ]
    ]
