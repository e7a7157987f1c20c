-- ===== src/Service/Documents.antt =====
-- service/documents.go: an enroll request of an agent that has a record.
pub mod Identity
use aep_go.Prelude.{
  Bool, List, Option, Text, [], contains, error, false, if◌then◌else◌, inl, inr, is_empty_list,
  none, not, select, some, text_eq, true, ◌&&◌,
}
use aep_go.Prelude.Actions.{Action, ◌>>=◌, ◌>>◌, pure, raise, lift}
use aep_go.Aep.Types.{
  ClaimValues, EnrollmentStatus, Time, EnrollRequest, EnrollResponse, ErrorCode, enrollment_failed,
}
use aep_go.Service.Config.{
  Service, missing_claims, accepted_document_ids, Core, external_call, read_clock,
  missing_document_ids,
}
use aep_go.Aep.Codec.{Stdlib}
use aep_go.Aep.Issues.{ids_of}
use aep_go.Service.Enrollments.{save_enrollment, validate_enrollment_record}
use aep_go.Service.Replies.{
  success_result, valid_enrollment_decision_status, document_requirements, enrollment_result,
  problem_result,
}
use aep_go.Service.Types.{EnrollmentDecision, Reply, EnrollmentRecord}
use aep_go.Service.Merge.{merge_document_claims}

abbrev or_default : {A : Type 0} → Option A → A → A
or_default none default = default
or_default (some a) default = a

-- The record that an accepted update leaves, before its store clones it.
unfoldable pub updated_record :
    {W : Type 0}
    → Service W
    → EnrollRequest
    → EnrollmentDecision
    → (merged : Option ClaimValues) → Time
    → EnrollmentRecord
    → EnrollmentRecord
unfolding accepted_document_ids contains text_eq
updated_record service request decision merged now r = record r {
  claims = merged;
  owner_action_required = or_default decision.owner_action_required r.owner_action_required;
  requirements_pending = or_default decision.requirements_pending r.requirements_pending;
  verification_pending = or_default decision.verification_pending r.verification_pending;
  acknowledged_document_ids =
      accepted_document_ids service r.acknowledged_document_ids
        (ids_of request.acknowledged_document_ids);
  required_document_ids =
      select (λ id. not (contains (ids_of request.acknowledged_document_ids) id))
        r.required_document_ids;
  updated_at = now;
}

-- A list of acknowledged documents, even an empty one, stands for every missing document.
unfoldable pub missing_for_request :
    {W : Type 0} → Service W → EnrollRequest → (acknowledged required : List Text) → List Text
missing_for_request service request acknowledged required = elim request.acknowledged_document_ids [
  | none ↦ missing_document_ids service acknowledged required
  | some ids ↦ []
]

unfoldable pub acknowledged_response : EnrollRequest → EnrollmentRecord → Reply EnrollResponse
unfolding enrollment_result success_result
acknowledged_response request r = elim (enrollment_result r) [
  | inr failure ↦ failure
  | inl response ↦
      success_result 200
        (record response { acknowledged_document_ids = request.acknowledged_document_ids })
]

abbrev is_unset : EnrollmentStatus → Bool
is_unset EnrollmentStatus.unset = true
is_unset _ = false

abbrev is_rejected : EnrollmentStatus → Bool
is_rejected EnrollmentStatus.rejected = true
is_rejected _ = false

module _ {W : Type 0} (lib : Stdlib) (service : Service W) where
  -- `SaveEnrollment` of the Service's store
  unfoldable pub save_record : EnrollmentRecord → Action (Core W) EnrollmentRecord
  unfolding save_enrollment
  save_record r s =
      let (outcome, enrollments) =
        save_enrollment lib (service.cancelled s.external) r s.enrollments in
      (outcome, record s { enrollments = enrollments })

  -- What follows a decision that asks for an update.
  unfoldable pub apply_update :
      EnrollRequest → EnrollmentDecision → EnrollmentRecord → Action (Core W) (Reply EnrollResponse)
  unfolding merge_document_claims save_record updated_record missing_for_request
      acknowledged_response
  apply_update request decision r =
      lift (merge_document_claims lib r.claims request.claims) >>= λ merged.
      if is_empty_list (missing_claims service merged)
        && is_empty_list (
            missing_for_request service request r.acknowledged_document_ids r.required_document_ids)
      then (read_clock service >>= λ now.
          save_record (updated_record service request decision merged now r) >>= λ saved.
          pure (acknowledged_response request saved))
      else pure (
          document_requirements (missing_claims service merged) (
            missing_for_request service request r.acknowledged_document_ids
              r.required_document_ids))

  -- `updateEnrollment`
  unfoldable pub update_enrollment :
      EnrollRequest → EnrollmentRecord → Action (Core W) (Reply EnrollResponse)
  unfolding apply_update validate_enrollment_record acknowledged_response
      valid_enrollment_decision_status problem_result
  update_enrollment request r =
      lift (validate_enrollment_record r)
      >> (read_clock service >>= λ now.
          external_call (service.decide_enrollment request now) >>= λ decision.
          if not (is_unset decision.status)
            && not (valid_enrollment_decision_status decision.status)
          then raise (error "AEP enrollment policy returned an invalid status")
          else if is_rejected decision.status
          then pure (problem_result ErrorCode.enrollment_failed "Enrollment failed" 403)
          else if or_default decision.update_existing true
          then apply_update request decision r
          else pure (acknowledged_response request r))
