-- ===== src/Service/Replies.antt =====
-- service/commands.go and service/documents.go: how the outcomes of a command become replies, and
-- how replies are stored and read back.
use aep_go.Prelude.{
  Bool, List, Option, Outcome, String, Text, [], bytes, false, if◌then◌else◌, inl, inr, none, ok,
  some, text_eq, true, ℕ, ◌++◌, ◌==◌, ◌>>=◌, ◌∷◌, ◌⊎◌,
}
use aep_go.Aep.Types.{
  ErrorCode, EnrollmentStatus, StatusResponse, new_problem_details, media_type, Time, AgentStatus,
  problem_media_type, EnrollResponse, code_text, ProblemDetails,
}
use aep_go.Service.Types.{Reply, StoredResponse, Header, EnrollmentRecord}
use aep_go.Aep.Codec.{Stdlib, parse_problem_details}
use aep_go.Aep.Issues.{nil_if_empty}

-- `successResult`
unfoldable pub success_result : {Body : Type 0} → ℕ → Body → Reply Body
success_result code body = record {
  body = some body;
  content_type = media_type;
  headers = [];
  problem = none;
  status = code;
}

abbrev challenge : ErrorCode → Header
challenge code =
    (bytes "WWW-Authenticate", bytes "AEP reason=" ++ (b'"' ∷ (code_text code ++ (b'"' ∷ [])))) ∷ []

-- `problemResult` around a problem that may carry more than its code
unfoldable pub problem_reply : {Body : Type 0} → ProblemDetails → Reply Body
unfolding code_text
problem_reply problem = record {
  body = none;
  content_type = problem_media_type;
  headers = if problem.status == 401 then challenge problem.code else [];
  problem = some problem;
  status = problem.status;
}

-- `problemResult`
unfoldable pub problem_result : {Body : Type 0} → ErrorCode → String → ℕ → Reply Body
unfolding new_problem_details problem_reply
problem_result code title http_status = problem_reply (new_problem_details code title http_status)

abbrev pub true_if : Bool → Option Text
true_if required = if required then some (bytes "true") else none

-- `lifecycleProblem`
unfoldable pub lifecycle_problem :
    {Body : Type 0} → ErrorCode → String → ℕ → EnrollmentRecord → Reply Body
unfolding new_problem_details problem_reply
lifecycle_problem code title http_status r =
    problem_reply (record (new_problem_details code title http_status) {
      owner_action_required = true_if r.owner_action_required;
      requirements_pending = nil_if_empty r.requirements_pending;
      verification_pending = nil_if_empty r.verification_pending;
    })

-- `grantLifecycleProblem`
unfoldable pub grant_lifecycle_problem : {Body : Type 0} → EnrollmentRecord → Reply Body
unfolding lifecycle_problem problem_result
grant_lifecycle_problem r = elim r.status [
  | AgentStatus.pending ↦
      lifecycle_problem ErrorCode.verification_pending "Verification pending" 403 r
  | AgentStatus.suspended ↦
      lifecycle_problem ErrorCode.identity_suspended "Identity suspended" 403 r
  | AgentStatus.terminated ↦
      lifecycle_problem ErrorCode.identity_terminated "Identity terminated" 403 r
  | AgentStatus.unavailable ↦
      lifecycle_problem ErrorCode.identity_unavailable "Identity unavailable" 403 r
  | _ ↦ problem_result ErrorCode.enrollment_failed "Enrollment failed" 400
]

-- `documentRequirements`
unfoldable pub document_requirements : {Body : Type 0} → (claims ids : List Text) → Reply Body
unfolding new_problem_details problem_reply
document_requirements claims ids =
    let problem = new_problem_details ErrorCode.requirements_unmet "Requirements unmet" 422 in
    elim ids [
      | [] ↦ problem_reply (record problem { requirements_pending = nil_if_empty claims })
      | id ∷ others ↦ problem_reply (record problem {
        required_document_ids = some (id ∷ others);
        owner_action_required = some (bytes "true");
        requirements_pending = some (claims ++ (bytes "service_documents" ∷ []));
      })
    ]

-- `enrollmentResponse`
unfoldable pub enrollment_response :
    AgentStatus → Bool → (verification requirements : List Text) → EnrollResponse
enrollment_response agent_status owner_action verification requirements = record {
  acknowledged_document_ids = none;
  status = agent_status;
  owner_action_required = true_if owner_action;
  verification_pending = nil_if_empty verification;
  requirements_pending = nil_if_empty requirements;
}

-- `enrollmentResult`
unfoldable pub enrollment_result : EnrollmentRecord → EnrollResponse ⊎ Reply EnrollResponse
unfolding enrollment_response problem_result
enrollment_result r = elim r.status [
  | AgentStatus.unregistered _ ↦
      inr (problem_result ErrorCode.enrollment_failed "Enrollment failed" 400)
  | registered ↦ inl (
      enrollment_response registered r.owner_action_required r.verification_pending
        r.requirements_pending)
]

-- `statusResponse`
unfoldable pub status_response : (Time → Text) → EnrollmentRecord → StatusResponse
status_response format_rfc3339 r = record {
  status = r.status;
  owner_action_required = true_if r.owner_action_required;
  verification_pending = nil_if_empty r.verification_pending;
  requirements_pending = nil_if_empty r.requirements_pending;
  since = format_rfc3339 r.since;
}

-- `validEnrollmentDecisionStatus`
unfoldable pub valid_enrollment_decision_status : EnrollmentStatus → Bool
valid_enrollment_decision_status EnrollmentStatus.active = true
valid_enrollment_decision_status EnrollmentStatus.pending = true
valid_enrollment_decision_status EnrollmentStatus.rejected = true
valid_enrollment_decision_status _ = false

-- `aep.AgentStatus(status)`
unfoldable pub agent_status : EnrollmentStatus → AgentStatus
agent_status EnrollmentStatus.unset = AgentStatus.unregistered []
agent_status EnrollmentStatus.active = AgentStatus.active
agent_status EnrollmentStatus.pending = AgentStatus.pending
agent_status EnrollmentStatus.rejected = AgentStatus.rejected
agent_status (EnrollmentStatus.unregistered text) = AgentStatus.unregistered text

module _ (lib : Stdlib) {Body : Type 0} where
  -- `storeResult`. `encode` is `json.Marshal` on the bodies, `none` being the zero value.
  unfoldable pub store_result :
      (Option Body → Outcome Text) → Reply Body → Time → Outcome StoredResponse
  store_result encode reply now = do
    text ← elim reply.problem [
      | none ↦ encode reply.body
      | some problem ↦ lib.marshal_problem problem
    ]
    ok (record {
      body = text;
      content_type = reply.content_type;
      created_at = now;
      headers = reply.headers;
      status = reply.status;
    })

  -- `parseStoredResult`
  unfoldable pub parse_stored_result : (Text → Outcome Body) → StoredResponse → Outcome (Reply Body)
  unfolding parse_problem_details text_eq
  parse_stored_result parse response =
      if text_eq response.content_type problem_media_type
      then (parse_problem_details lib response.body >>= λ problem. ok (record {
        body = none;
        content_type = response.content_type;
        headers = response.headers;
        problem = some problem;
        status = response.status;
      }))
      else (parse response.body >>= λ body. ok (record {
        body = some body;
        content_type = response.content_type;
        headers = response.headers;
        problem = none;
        status = response.status;
      }))
