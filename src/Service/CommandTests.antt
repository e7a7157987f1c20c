-- ===== src/Service/CommandTests.antt =====
-- Runs of the commands of a small Service on concrete values.
use aep_go.Prelude.{
  Bool-cases, Option, Outcome, Text, [], arith, bytes, contains, inl, inr, leb, length, none, ok,
  refl, some, text_eq, text_eq_sound, true, ℕ, ◌&&◌, ◌∷◌, ◌≡◌, ◌≢◌, ◌⊎◌,
}
use aep_go.Prelude.Int64.{add64, sub64, wrap64, ◌+ℤ◌, ◌-ℤ◌}
use aep_go.Prelude.Actions.{Action}
use aep_go.Service.Commands.{Session, execute_command, stored_run, idempotency_input, core_clock}
use aep_go.Aep.Json.{object, array, boolean, member, cons, nil, end}
use aep_go.Aep.Types.{EnrollRequest, AssertionOperation, media_type, unix}
use aep_go.Service.Types.{EnrollmentRecord, Reply, IdempotentCommand, StoredResponse}
use aep_go.Service.Config.{Core, missing_document_ids}
use aep_go.Service.Commands.Grant.{grant_run, grant_to, parse_json_object}
use aep_go.Service.Commands.Grant.Entitled.{grant_run-IsEntitled, IsEntitled}
use aep_go.Service.Documents.{update_enrollment, missing_for_request}
use aep_go.Service.Documents.Identity.{update_enrollment-ChangesOnly, SameEnrollment}
use aep_go.Service.Enrollments.{validate_enrollment_record, find_enrollment}
use aep_go.Service.Enrollments.Keyed.{IsWellKeyed}
use aep_go.Service.Limits.{claim_value_within_limits}
use aep_go.Service.Limits.Exact.{count_members, has_small_parts, claim_value_within_limits_exact}
use aep_go.Service.Recognition.{authenticate_assertion, admit_claims}
use aep_go.Service.Recognition.Once.{
  recognized_once, IsRecognized, authenticate_assertion-IsRecognized, verified_core,
}
use aep_go.Aep.Assertion.{exceeds_assertion_lifetime, validate_client_assertion_claims}
use aep_go.Service.Replay.{consume_all}
use aep_go.Service.Commands.Enroll.{enroll_run, enroll_new}
use aep_go.Service.Commands.Enroll.Records.{unmet_creates_nothing, enroll_run-IsWellKeyed}
use aep_go.Service.Commands.Repeated.{execute_command_again}
use aep_go.Service.Idempotency.{expire, new_idempotency_store, execute_idempotent, admit, settle}
use aep_go.Service.Sample.{
  toy_core, toy_record, toy_now, toy_claims, toy_grant, toy_lib, toy_service, toy_enroll,
  toy_options,
}
use aep_go.Service.Idempotency.Laws.{after_all, StoreCall}
use aep_go.Service.Recognition.Valid.{IsMadeFor, authenticate_assertion-IsMadeFor, HasHeader}

grant_run-IsEntitled_example :
    ((grant_run toy_lib toy_service (bytes "did:web:a") toy_grant toy_core).1 ≡ toy_core)
    ⊎ IsEntitled toy_lib toy_service (bytes "did:web:a") toy_grant toy_core
grant_run-IsEntitled_example =
    grant_run-IsEntitled toy_lib toy_service (bytes "did:web:a") toy_grant toy_core

-- The handler is reached.
grant_is_issued :
    (grant_run toy_lib toy_service (bytes "did:web:a") toy_grant toy_core).1.external ≡ 1
unfolding grant_run grant_to find_enrollment
grant_is_issued = refl

update_enrollment-ChangesOnly_example :
    let after =
      (update_enrollment toy_lib toy_service toy_enroll toy_record toy_core).1.enrollments in
    (after.records (bytes "did:web:a") ≡ toy_core.enrollments.records (bytes "did:web:a"))
    ⊎ ((bytes "did:web:a" ≡ bytes "did:web:a")
        × ((saved : EnrollmentRecord) × (after.records (bytes "did:web:a") ≡ some saved)
            × SameEnrollment saved toy_record))
update_enrollment-ChangesOnly_example =
    update_enrollment-ChangesOnly toy_lib toy_service toy_enroll toy_record toy_core
      (bytes "did:web:a")

authenticate_assertion-IsRecognized_example :
    ((verified_core toy_lib toy_service toy_options AssertionOperation.grant [] toy_core).0
      ≡ ok toy_claims)
    × IsRecognized toy_lib toy_service
        (bytes "jwt")
        AssertionOperation.grant
        []
        toy_claims
        toy_now
        toy_core
        (authenticate_assertion toy_lib toy_service toy_options AssertionOperation.grant []
          toy_core).1
unfolding authenticate_assertion admit_claims validate_client_assertion_claims
    exceeds_assertion_lifetime sub64 wrap64 ◌-ℤ◌ add64 ◌+ℤ◌ consume_all
authenticate_assertion-IsRecognized_example =
    authenticate_assertion-IsRecognized toy_lib toy_service toy_options AssertionOperation.grant []
      toy_claims toy_core refl

authenticate_assertion-IsMadeFor_example :
    IsMadeFor toy_lib toy_service toy_claims AssertionOperation.grant [] (unix toy_now)
    × HasHeader toy_lib toy_service (bytes "jwt") toy_claims.subject
unfolding authenticate_assertion admit_claims validate_client_assertion_claims
    exceeds_assertion_lifetime sub64 wrap64 ◌-ℤ◌ add64 ◌+ℤ◌ consume_all
authenticate_assertion-IsMadeFor_example =
    authenticate_assertion-IsMadeFor toy_lib toy_service toy_options AssertionOperation.grant []
      toy_claims toy_core (ground arith, ground arith) (ground arith, ground arith)
      (ground arith, ground arith) (ground arith) (ground arith) refl

recognized_once_example :
    (authenticate_assertion toy_lib toy_service toy_options AssertionOperation.grant []
      (authenticate_assertion toy_lib toy_service toy_options AssertionOperation.grant []
        toy_core).1).0
    ≢ ok (some toy_claims)
unfolding authenticate_assertion admit_claims validate_client_assertion_claims
    exceeds_assertion_lifetime sub64 wrap64 ◌-ℤ◌ add64 ◌+ℤ◌ consume_all
recognized_once_example =
    recognized_once toy_lib toy_service toy_options toy_options AssertionOperation.grant
      AssertionOperation.grant [] [] toy_claims toy_claims toy_core
      (authenticate_assertion toy_lib toy_service toy_options AssertionOperation.grant []
        toy_core).1
      [] refl refl tt refl refl (omega arith)

claim_value_within_limits_exact_example :
    (claim_value_within_limits
      (λ t. length t)
      toy_service.claim_value_limits
      (object (member (bytes "a") (array (cons (boolean true) nil)) end))
      1
      0).0
    ≡ (has_small_parts
          (λ t. length t)
          toy_service.claim_value_limits
          (object (member (bytes "a") (array (cons (boolean true) nil)) end))
          1
        && leb
            (count_members (object (member (bytes "a") (array (cons (boolean true) nil)) end)))
            128)
claim_value_within_limits_exact_example =
    claim_value_within_limits_exact (λ t. length t) toy_service.claim_value_limits
      (object (member (bytes "a") (array (cons (boolean true) nil)) end))

toy_store-IsWellKeyed : IsWellKeyed toy_core.enrollments
unfolding validate_enrollment_record
toy_store-IsWellKeyed k r e = elim (Bool-cases (text_eq (bytes "did:web:a") k)) [
  | inl same ↦ ground (arith, text_eq_sound (bytes "did:web:a") k)
  | inr other ↦ absurd (ground arith)
]

enroll_run-IsWellKeyed_example :
    IsWellKeyed
      (enroll_run toy_lib toy_service (bytes "did:web:b") toy_enroll toy_core).1.enrollments
enroll_run-IsWellKeyed_example =
    enroll_run-IsWellKeyed toy_lib toy_service (bytes "did:web:b") toy_enroll toy_core
      toy_store-IsWellKeyed

-- A request that acknowledges no documents, for the agent without a record.
abbrev bare_enroll : EnrollRequest
bare_enroll = record toy_enroll { acknowledged_document_ids = none }

unmet_creates_nothing_example :
    ((enroll_new toy_lib toy_service (bytes "did:web:b") bare_enroll toy_core).1.external ≡ 0)
    × ((enroll_new toy_lib toy_service
            (bytes "did:web:b")
            bare_enroll
            toy_core).1.enrollments.records
          (bytes "did:web:b")
        ≡ toy_core.enrollments.records (bytes "did:web:b"))
unfolding missing_for_request missing_document_ids text_eq contains
unmet_creates_nothing_example =
    unmet_creates_nothing toy_lib toy_service (bytes "did:web:b") (bytes "did:web:b") bare_enroll
      toy_core (inr (refl, λ e. cc e))

abbrev raw : Option Text → Outcome Text
raw none = ok (bytes "null")
raw (some text) = ok text

abbrev toy_run : Action (Core ℕ) (Reply Text)
toy_run = grant_run toy_lib toy_service (bytes "did:web:a") toy_grant

abbrev toy_response : StoredResponse
toy_response = record {
  body = bytes "{}";
  content_type = media_type;
  created_at = toy_now;
  headers = [];
  status = 200;
}

abbrev toy_execute : Action (Core ℕ) (Reply Text) → Session ℕ → Outcome (Reply Text) × Session ℕ
toy_execute =
    execute_command toy_lib toy_service raw (parse_json_object toy_lib) (bytes "did:web:a")
      IdempotentCommand.grant (bytes "k") (ok (bytes "{}"))

-- A command of another agent that comes between.
abbrev other_command : StoreCall (Core ℕ)
other_command = record {
  input =
      idempotency_input toy_lib toy_service (bytes "did:web:b") IdempotentCommand.grant (bytes "k")
        (bytes "{}") (bytes "{}");
  run = stored_run toy_lib toy_service raw (parse_json_object toy_lib) toy_run;
  state = toy_core;
}

execute_command_again_example :
    let (reply, after) = toy_execute toy_run (new_idempotency_store, toy_core) in
    let later = after_all (core_clock toy_service) (other_command ∷ []) after.0 in
    toy_execute toy_run (later, after.1) ≡ (reply, (expire toy_now later, after.1))
unfolding execute_command execute_idempotent admit idempotency_input settle stored_run grant_run
    find_enrollment
execute_command_again_example =
    execute_command_again toy_lib toy_service raw (parse_json_object toy_lib) (bytes "did:web:a")
      IdempotentCommand.grant (bytes "k") (bytes "{}") (bytes "{}") toy_run toy_run
      new_idempotency_store toy_core (toy_execute toy_run (new_idempotency_store, toy_core)).1.1
      toy_response (other_command ∷ []) refl refl (omega arith, tt) (omega arith)
