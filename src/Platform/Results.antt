-- ===== src/Platform/Results.antt =====
-- platform/platform.go: how results and problems are built, stored and read back.
use aep_go.Prelude.{
  Error, Option, Outcome, String, Text, [], error, if◌then◌else◌, none, ok, some, text_eq, ℕ, ◌>>=◌,
}
use aep_go.Aep.Responses.{Reply, StoredResponse, Header}
use aep_go.Platform.Types.{IdentityRecord, AgentIdentity, ManagedAgentStatus}
use aep_go.Aep.Types.{
  ProblemDetails, Time, media_type, new_problem_details, problem_media_type, ErrorCode,
}

-- `successResult`
unfoldable pub success_result : {Body : Type 0} → ℕ → Body → Header → Reply Body
success_result code body headers = record {
  body = some body;
  content_type = media_type;
  headers = headers;
  problem = none;
  status = code;
}

-- `problemResult`
unfoldable pub problem_result : {Body : Type 0} → ℕ → ErrorCode → String → Reply Body
unfolding new_problem_details
problem_result http_status code title = record {
  body = none;
  content_type = problem_media_type;
  headers = [];
  problem = some (new_problem_details code title http_status);
  status = http_status;
}

abbrev pub unknown_identity : {Body : Type 0} → Reply Body
unknown_identity = problem_result 404 ErrorCode.not_recognized "Identity not recognized."

abbrev pub bad_request : {Body : Type 0} → String → Reply Body
bad_request title = problem_result 400 ErrorCode.invalid_request title

-- A problem whose title is `err.Error()`.
abbrev pub bad_request_of : {Body : Type 0} → Error → Reply Body
bad_request_of (error message) = bad_request message
bad_request_of _ = bad_request ""

-- `lifecycleErrorCode`
unfoldable pub lifecycle_error_code : ManagedAgentStatus → ErrorCode
lifecycle_error_code ManagedAgentStatus.terminated = ErrorCode.identity_terminated
lifecycle_error_code ManagedAgentStatus.suspended = ErrorCode.identity_suspended
lifecycle_error_code ManagedAgentStatus.revoked = ErrorCode.identity_suspended
lifecycle_error_code _ = ErrorCode.identity_unavailable

-- `agentIdentityFromRecord`
unfoldable pub agent_identity_from_record : (Time → Text) → IdentityRecord → AgentIdentity
agent_identity_from_record format_rfc3339 r = record {
  agent_did = r.agent_did;
  agent_identity_id = r.agent_identity_id;
  created_at = format_rfc3339 r.created_at;
  did_document_url = r.did_document_url;
  key_id = r.key_id;
  service_did = r.service_did;
  signing_algorithms = r.signing_algorithms;
  status = r.status;
  updated_at = format_rfc3339 r.updated_at;
}

-- `json.Marshal` and `json.Unmarshal` on the bodies of one operation, `none` being the zero value.
pub record BodyCodec (Body : Type 0) : Type 0 where
  pub encode : Option Body → Outcome Text
  pub decode : Text → Outcome Body

module _ {Body : Type 0} (codec : BodyCodec Body) where
  -- `storeResult`, which leaves the time to the store
  unfoldable pub store_result :
      (ProblemDetails → Outcome Text) → Reply Body → Outcome StoredResponse
  store_result marshal_problem reply = do
    text ← elim reply.problem [
      | none ↦ codec.encode reply.body
      | some problem ↦ marshal_problem problem
    ]
    ok (record {
      body = text;
      content_type = reply.content_type;
      created_at = 0;
      headers = reply.headers;
      status = reply.status;
    })

  -- `restoreResult`
  unfoldable pub restore_result :
      (Text → Outcome ProblemDetails) → StoredResponse → Outcome (Reply Body)
  unfolding text_eq
  restore_result unmarshal_problem stored =
      if text_eq stored.content_type problem_media_type
      then (unmarshal_problem stored.body >>= λ problem. ok (record {
        body = none;
        content_type = stored.content_type;
        headers = stored.headers;
        problem = some problem;
        status = stored.status;
      }))
      else (codec.decode stored.body >>= λ body. ok (record {
        body = some body;
        content_type = stored.content_type;
        headers = stored.headers;
        problem = none;
        status = stored.status;
      }))
