-- ===== src/Service/Commands/Status.antt =====
-- service/commands.go, `Status`
use aep_go.Prelude.{Option, Outcome, none, ok, some, ◌>>=◌, ◌>>◌}
use aep_go.Aep.Codec.{Stdlib}
use aep_go.Aep.Issues.{validate_status_response, validation_result}
use aep_go.Aep.Types.{AssertionOperation, StatusResponse}
use aep_go.Service.Commands.{Session, not_recognized_reply, recognized_command}
use aep_go.Service.Config.{Service, find_record}
use aep_go.Service.Enrollments.{find_enrollment}
use aep_go.Service.Replies.{problem_result, success_result, status_response}
use aep_go.Service.Types.{CommandOptions, Reply, EnrollmentRecord}

module _ {W : Type 0} (lib : Stdlib) (service : Service W) where
  unfoldable pub record_status : Option EnrollmentRecord → Outcome (Reply StatusResponse)
  unfolding status_response validate_status_response validation_result success_result problem_result
  record_status none = ok not_recognized_reply
  record_status (some r) = do
    let response = status_response lib.format_rfc3339 r
    validation_result (validate_status_response lib.parses_time response)
    ok (success_result 200 response)

  -- `Status`
  unfoldable pub status : CommandOptions → Session W → Outcome (Reply StatusResponse) × Session W
  unfolding recognized_command record_status find_enrollment
  status options =
      recognized_command lib service options AssertionOperation.status (λ claims (store, s).
        let (found, s') = find_record lib service claims.subject s in
        (found >>= record_status, (store, s')))
