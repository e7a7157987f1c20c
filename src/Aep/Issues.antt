-- ===== src/Aep/Issues.antt =====
-- errors.go, validation.go and the checks of protocol.go that collect issues. A validator returns
-- the issues that it found; `validationResult` is an error exactly when there is one.
use aep_go.Prelude.{
  Bool, List, Option, Outcome, String, Text, [], all, bytes, contains, err, error, false,
  if◌then◌else◌, is_empty, is_some, leb, length, ltb, none, not, ok, some, suc, text_eq, true, ℕ,
  ◌&&◌, ◌++◌, ◌==◌, ◌||◌, ◌∷◌,
}
use aep_go.Aep.Types.{
  AgentStatus, EnrollResponse, StatusResponse, GrantRequest, RevokeRequest, ProblemDetails,
  code_text, ErrorCode,
}
use aep_go.Aep.Bytes.{is_alphanumeric}

-- `index` is the position of a member in the list that `path` names.
pub record ValidationIssue : Type 0 where
  pub path : String
  pub index : Option ℕ
  pub message : String

abbrev pub Issues : Type 0
Issues = List ValidationIssue

abbrev pub issue : String → String → ValidationIssue
issue path message = record { path = path; index = none; message = message }

abbrev pub issue_if : Bool → String → String → Issues
issue_if test path message = if test then issue path message ∷ [] else []

-- `validationResult`
unfoldable pub validation_result : Issues → Outcome (Unit {0})
validation_result [] = ok tt
validation_result (_ ∷ _) = err (error "invalid AEP document")

-- `requireNonEmpty`
abbrev pub require_non_empty : Text → String → Issues
require_non_empty value path = issue_if (is_empty value) path "Expected a non-empty string."

-- `requireUniqueStrings`; `seen` holds the members already passed.
unfoldable pub has_repeated : List Text → List Text → Bool
unfolding contains
has_repeated seen [] = false
has_repeated seen (value ∷ values) = contains seen value || has_repeated (value ∷ seen) values

abbrev pub require_unique_strings : List Text → String → Issues
require_unique_strings values path = issue_if (has_repeated [] values) path "Expected unique items."

-- One issue for each empty member.
abbrev pub empty_members : ℕ → List Text → String → String → Issues
empty_members i [] path message = []
empty_members i (value ∷ values) path message =
    (if is_empty value then record { path = path; index = some i; message = message } ∷ [] else [])
    ++ empty_members (suc i) values path message

-- `validateNonEmptyStrings`: `none` is nil.
abbrev pub validate_non_empty_strings : Option (List Text) → String → Issues
validate_non_empty_strings none path = []
validate_non_empty_strings (some values) path =
    issue_if (length values == 0) path "Expected at least one item."
    ++ (empty_members 0 values path "Expected a non-empty string."
        ++ require_unique_strings values path)

-- `append([]string(nil), values...)` is nil when there is nothing to append.
abbrev pub nil_if_empty : List Text → Option (List Text)
nil_if_empty [] = none
nil_if_empty (value ∷ values) = some (value ∷ values)

-- `validateStrings`
abbrev pub validate_strings : List Text → String → Issues
validate_strings values path = empty_members 0 values path "Expected a string."

-- `validateOwnerActionRequired`
abbrev pub validate_owner_action_required : Option Text → Issues
validate_owner_action_required none = []
validate_owner_action_required (some value) =
    issue_if (not (text_eq value (bytes "true")) && not (text_eq value (bytes "false")))
      "$.owner_action_required" "Expected true or false."

abbrev is_id_byte : ℕ → Bool
is_id_byte c = is_alphanumeric c || c == b'.' || c == b'_' || c == b'-'

-- `documentIDPattern`: `^[A-Za-z0-9][A-Za-z0-9._-]{0,31}$`
unfoldable pub is_document_id : Text → Bool
is_document_id [] = false
is_document_id (c ∷ rest) = is_alphanumeric c && all is_id_byte rest && leb (length rest) 31

abbrev invalid_ids : ℕ → List Text → Issues
invalid_ids i [] = []
invalid_ids i (id ∷ ids) =
    (if is_document_id id
      then []
      else record { path = "$"; index = some i; message = "Invalid document identifier." } ∷ [])
    ++ invalid_ids (suc i) ids

-- `ValidateDocumentIDs`
unfoldable pub validate_document_ids : List Text → Issues
unfolding is_document_id has_repeated
validate_document_ids ids =
    issue_if (ltb 7 (length ids)) "$" "At most seven document identifiers are allowed."
    ++ (require_unique_strings ids "$" ++ invalid_ids 0 ids)

abbrev pub ids_of : Option (List Text) → List Text
ids_of none = []
ids_of (some ids) = ids

abbrev pub status_issues : AgentStatus → Issues
status_issues (AgentStatus.unregistered _) =
    issue "$.status" "Expected a registered Agent status." ∷ []
status_issues _ = []

-- `ValidateEnrollResponse`
unfoldable pub validate_enroll_response : EnrollResponse → Issues
unfolding validate_document_ids
validate_enroll_response value =
    validate_document_ids (ids_of value.acknowledged_document_ids)
    ++ (status_issues value.status
        ++ (validate_owner_action_required value.owner_action_required
            ++ (validate_non_empty_strings value.verification_pending "$.verification_pending"
                ++ validate_non_empty_strings value.requirements_pending "$.requirements_pending")))

-- `ValidateStatusResponse`; `parses_time` is `time.Parse` with the RFC 3339 layout.
unfoldable pub validate_status_response : (Text → Bool) → StatusResponse → Issues
validate_status_response parses_time value =
    status_issues value.status
    ++ (validate_owner_action_required value.owner_action_required
        ++ (validate_non_empty_strings value.verification_pending "$.verification_pending"
            ++ (validate_non_empty_strings value.requirements_pending "$.requirements_pending"
                ++ issue_if (not (is_empty value.since) && not (parses_time value.since)) "$.since"
                    "Expected an RFC 3339 date-time.")))

-- `ValidateGrantRequest`
unfoldable pub validate_grant_request : GrantRequest → Issues
validate_grant_request value =
    require_non_empty value.grant_type "$.grant_type"
    ++ validate_strings value.requested_scopes "$.requested_scopes"

-- `ValidateRevokeRequest`
unfoldable pub validate_revoke_request : RevokeRequest → Issues
validate_revoke_request value =
    let has_all_grant_types = not (is_empty value.all_grant_types) in
    let has_credential_id = not (is_empty value.credential_id) in
    let has_grant_type = not (is_empty value.grant_type) in
    issue_if (has_all_grant_types && not (text_eq value.all_grant_types (bytes "true")))
      "$.all_grant_types" "Expected true."
    ++ issue_if
        (not has_all_grant_types && not has_grant_type
          || has_all_grant_types && (has_credential_id || has_grant_type)
          || has_credential_id && not has_grant_type)
        "$" "Expected grant_type, grant_type with credential_id, or all_grant_types."

abbrev is_requirements_unmet : ErrorCode → Bool
is_requirements_unmet ErrorCode.requirements_unmet = true
is_requirements_unmet _ = false

abbrev is_not_recognized : ErrorCode → Bool
is_not_recognized ErrorCode.not_recognized = true
is_not_recognized _ = false

abbrev service_documents_requirement : Text
service_documents_requirement = bytes "service_documents"

abbrev document_requirement_issues : ProblemDetails → Issues
document_requirement_issues value =
    let required = ids_of value.required_document_ids in
    let names_documents =
      contains (ids_of value.requirements_pending) service_documents_requirement in
    if is_some value.required_document_ids || names_documents
    then validate_document_ids required
      ++ issue_if
          (length required == 0
            || not (is_requirements_unmet value.code)
            || not (value.status == 422)
            || not names_documents)
          "$.required_document_ids"
          "Document requirements require requirements_unmet, status 422, and service_documents."
    else []

abbrev is_other_than_true : Option Text → Bool
is_other_than_true none = false
is_other_than_true (some value) = not (text_eq value (bytes "true"))

-- `ValidateProblemDetails`; a code is never the empty string here.
unfoldable pub validate_problem_details : ProblemDetails → Issues
unfolding code_text text_eq contains validate_document_ids
validate_problem_details value =
    document_requirement_issues value
    ++ (issue_if (not (text_eq value.type_uri (bytes "urn:aep:error:" ++ code_text value.code)))
          "$.type" "Expected an AEP error URN matching code."
        ++ (require_non_empty (bytes value.title) "$.title"
            ++ (issue_if (value.status == 0) "$.status" "Expected an integer HTTP status."
                ++ (issue_if (is_other_than_true value.owner_action_required)
                      "$.owner_action_required" "Expected true."
                    ++ (validate_non_empty_strings value.verification_pending
                          "$.verification_pending"
                        ++ (validate_non_empty_strings value.requirements_pending
                              "$.requirements_pending"
                            ++ issue_if
                                (is_not_recognized value.code
                                  && (is_some value.owner_action_required
                                      || is_some value.requirements_pending
                                      || is_some value.verification_pending))
                                "$"
                                "not_recognized must not expose pending or owner-action metadata."))))))
