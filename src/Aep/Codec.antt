-- ===== src/Aep/Codec.antt =====
-- What the program takes from the standard library: JSON (encoding/json with the decoding helpers
-- of validation.go and the MarshalJSON and UnmarshalJSON methods of additional.go), SHA-256 and
-- the parsers of addresses, dates and times.
use aep_go.Prelude.{Bool, Option, Outcome, Table, Text, [], none, ok, some, ℕ, ◌++◌, ◌>>=◌, ◌>>◌}
use aep_go.Aep.Types.{
  ClaimValues, EnrollRequest, EnrollResponse, ProblemDetails, GrantRequest, RevokeRequest, Time,
}
use aep_go.Aep.Claims.{validate_claim_values}
use aep_go.Aep.Issues.{
  ids_of, validate_grant_request, Issues, validate_revoke_request, validate_document_ids,
  require_non_empty, validation_result, validate_problem_details, validate_enroll_response,
}
use aep_go.Aep.Assertion.{Url}
use aep_go.Aep.Json.{Json}

-- The header members that the Service reads, where they are strings.
pub record JwtHeader : Type 0 where
  pub algorithm : Option Text
  pub type_value : Option Text
  pub key_id : Option Text

pub record Stdlib : Type 0 where
  pub marshal_claims : ClaimValues → Outcome Text
  pub decode_claims : Text → Outcome ClaimValues
  pub unmarshal_members : Text → Outcome (Table Text)
  pub marshal_members : Table Text → Outcome Text
  pub decode_enroll_request : Text → Outcome EnrollRequest
  pub decode_grant_request : Text → Outcome GrantRequest
  pub decode_revoke_request : Text → Outcome RevokeRequest
  pub marshal_enroll_request : EnrollRequest → Outcome Text
  pub marshal_grant_request : GrantRequest → Outcome Text
  pub marshal_revoke_request : RevokeRequest → Outcome Text
  pub decode_enroll_response : Text → Outcome EnrollResponse
  pub marshal_enroll_response : EnrollResponse → Outcome Text
  pub decode_problem : Text → Outcome ProblemDetails
  pub marshal_problem : ProblemDetails → Outcome Text
  pub decode_revoke_response : Text → Outcome (Unit {0})
  pub format_rfc3339 : Time → Text
  pub trim_space : Text → Text
  pub decode_value : Text → Outcome Json
  -- the members of a JSON object, by name; `none` for the value null
  pub unmarshal_object : Text → Outcome (Option (Table Text))
  pub unmarshal_string : Text → Outcome Text
  -- the number of runes in a string
  pub rune_count : Text → ℕ
  -- the header of a compact JWT whose three parts decode
  pub decode_jwt : Text → Option JwtHeader
  pub parse_url : Text → Option Url
  -- decoding to generic values with numbers kept, and encoding again
  pub canonical : Text → Outcome Text
  -- the hexadecimal digits of `sha256.Sum256`
  pub sha256 : Text → Text
  -- `json.Marshal` of a `json.RawMessage`, which compacts and escapes it
  pub marshal_raw : Text → Outcome Text
  pub parses_ip : Text → Bool
  pub parses_date : Text → Bool
  pub parses_time : Text → Bool

module _ (lib : Stdlib) where
  -- `ParseClaimValues`
  unfoldable pub parse_claim_values : Text → Outcome ClaimValues
  parse_claim_values text = do
    claims ← lib.decode_claims text
    validation_result (validate_claim_values lib.parses_ip lib.parses_date claims)
    ok claims

  -- `cloneClaimValues`
  unfoldable pub clone_claim_values : Option ClaimValues → Outcome (Option ClaimValues)
  unfolding parse_claim_values
  clone_claim_values none = ok none
  clone_claim_values (some claims) = do
    text ← lib.marshal_claims claims
    copy ← parse_claim_values text
    ok (some copy)

  abbrev pub optional_claims_issues : Option ClaimValues → Issues
  optional_claims_issues none = []
  optional_claims_issues (some claims) = validate_claim_values lib.parses_ip lib.parses_date claims

  -- `ParseEnrollRequest`
  unfoldable pub parse_enroll_request : Text → Outcome EnrollRequest
  unfolding validate_document_ids
  parse_enroll_request text = do
    request ← lib.decode_enroll_request text
    validation_result (
        validate_document_ids (ids_of request.acknowledged_document_ids)
        ++ (require_non_empty request.agent_did "$.agent_did"
            ++ optional_claims_issues request.claims))
    ok request

  -- `ParseGrantRequest`
  unfoldable pub parse_grant_request : Text → Outcome GrantRequest
  unfolding validate_grant_request validation_result
  parse_grant_request text = do
    request ← lib.decode_grant_request text
    validation_result (validate_grant_request request)
    ok request

  -- `ParseRevokeRequest`
  unfoldable pub parse_revoke_request : Text → Outcome RevokeRequest
  unfolding validate_revoke_request validation_result
  parse_revoke_request text = do
    request ← lib.decode_revoke_request text
    validation_result (validate_revoke_request request)
    ok request

  -- `ParseEnrollResponse`
  unfoldable pub parse_enroll_response : Text → Outcome EnrollResponse
  unfolding validate_enroll_response validation_result
  parse_enroll_response text = do
    response ← lib.decode_enroll_response text
    validation_result (validate_enroll_response response)
    ok response

  -- `ParseProblemDetails`
  unfoldable pub parse_problem_details : Text → Outcome ProblemDetails
  unfolding validate_problem_details validation_result
  parse_problem_details text = do
    problem ← lib.decode_problem text
    validation_result (validate_problem_details problem)
    ok problem
