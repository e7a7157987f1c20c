-- ===== src/Service/Commands/Enroll/Records.antt =====
-- What an enroll request leaves in the enrollment store.
use aep_go.Prelude.{
  Outcome-cases, Text, [], ap, arith, inl, inr, is_empty_list-cases, none, some, sym, ◌∙◌, ◌≡◌, ◌≢◌,
  ◌⊎◌,
}
use aep_go.Aep.Codec.{Stdlib}
use aep_go.Aep.Types.{EnrollRequest}
use aep_go.Service.Commands.Enroll.{
  enroll_new, supported_request, create_record, enroll_run, find_or_create,
}
use aep_go.Service.Config.{Service, missing_claims, Core, find_record, missing_document_ids}
use aep_go.Service.Documents.{
  apply_update, missing_for_request, update_enrollment, save_record, updated_record,
}
use aep_go.Service.Enrollments.{
  checked_record, finish_create, find_or_create_enrollment, begin_create,
}
use aep_go.Service.Enrollments.Keyed.{
  IsWellKeyed, save_enrollment-IsWellKeyed, find_or_create_enrollment-IsWellKeyed,
}
use aep_go.Service.Merge.{merge_document_claims}
use aep_go.Service.Types.{EnrollmentRecord, EnrollmentDecision}

module _ {W : Type 0} (lib : Stdlib) (service : Service W) where
  apply_update-IsWellKeyed :
      (request : EnrollRequest) (decision : EnrollmentDecision) (r : EnrollmentRecord) (s : Core W)
      → IsWellKeyed s.enrollments
      → IsWellKeyed (apply_update lib service request decision r s).1.enrollments
  unfolding apply_update save_record
  apply_update-IsWellKeyed request decision r s h k found e =
      elim (Outcome-cases (merge_document_claims lib r.claims request.claims)) [
        | inl (failure, failed) ↦ h k found (ground arith)
        | inr (merged, merges) ↦
            let (now, w) = service.clock s.external in
            ground (
              arith,
              h k found,
              save_enrollment-IsWellKeyed lib (service.cancelled w)
                  (updated_record service request decision merged now r) s.enrollments h k found,
            )
      ]

  update_enrollment-IsWellKeyed :
      (request : EnrollRequest) (r : EnrollmentRecord) (s : Core W)
      → IsWellKeyed s.enrollments
      → IsWellKeyed (update_enrollment lib service request r s).1.enrollments
  unfolding update_enrollment
  update_enrollment-IsWellKeyed request r s h k found e =
      let (now, w) = service.clock s.external in
      let (outcome, w') = service.decide_enrollment request now w in
      elim (Outcome-cases outcome) [
        | inl (failure, failed) ↦ h k found (ground arith)
        | inr (decision, decided) ↦ ground (
          arith,
          h k found,
          apply_update-IsWellKeyed request decision r (record s { external = w' }) h k found,
        )
      ]

  enroll_new-find_or_create :
      (agent_did : Text) (request : EnrollRequest) (s : Core W)
      → (enroll_new lib service agent_did request s).1
        ≡ (find_or_create lib service agent_did request s).1
  unfolding enroll_new
  enroll_new-find_or_create agent_did request s = ground arith

  enroll_new-IsWellKeyed :
      (agent_did : Text) (request : EnrollRequest) (s : Core W)
      → IsWellKeyed s.enrollments
      → IsWellKeyed (enroll_new lib service agent_did request s).1.enrollments
  unfolding find_or_create
  enroll_new-IsWellKeyed agent_did request s h k found e =
      find_or_create_enrollment-IsWellKeyed lib (service.cancelled s.external) agent_did
        (create_record lib service agent_did request) s.enrollments s.external h k found
        (ap (λ (q : Core W). q.enrollments.records k)
            (sym (enroll_new-find_or_create agent_did request s))
          ∙ e)

  -- Whatever the policy and the other collaborators answer, an enroll request keeps every record of
  -- the store under its own agent and valid.
  pub enroll_run-IsWellKeyed :
      (agent_did : Text) (request : EnrollRequest) (s : Core W)
      → IsWellKeyed s.enrollments
      → IsWellKeyed (enroll_run lib service agent_did request s).1.enrollments
  unfolding enroll_run
  enroll_run-IsWellKeyed agent_did request s h k found e =
      elim (Outcome-cases (find_record lib service agent_did s).0) [
        | inl (failure, failed) ↦ h k found (ground arith)
        | inr (some r, exists) ↦
            update_enrollment-IsWellKeyed (supported_request lib service request) r s h k found
              (ground arith)
        | inr (none, absent) ↦
            enroll_new-IsWellKeyed agent_did (supported_request lib service request) s h k found
              (ground arith)
      ]

  -- The request of an agent without a record misses a claim that the Service requires; or it does
  -- not say at all which documents it acknowledges, and the Service requires some.
  abbrev pub IsUnmet : EnrollRequest → Type 0
  IsUnmet request =
      (missing_claims service request.claims ≢ [])
      ⊎ ((request.acknowledged_document_ids ≡ none) × (missing_document_ids service [] [] ≢ []))

  -- An agent whose first request misses a required claim, or has no list of acknowledged documents
  -- while the Service requires documents, gets no record: the policy is not asked, and no record of
  -- the store changes. A list that leaves out a required document does not count as a miss here.
  pub unmet_creates_nothing :
      (agent_did k : Text) (request : EnrollRequest) (s : Core W)
      → IsUnmet request
      → ((enroll_new lib service agent_did request s).1.external ≡ s.external)
        × ((enroll_new lib service agent_did request s).1.enrollments.records k
            ≡ s.enrollments.records k)
  unfolding enroll_new find_or_create find_or_create_enrollment begin_create finish_create
      checked_record create_record missing_for_request
  unmet_creates_nothing agent_did k request s lacking =
      elim (is_empty_list-cases (missing_claims service request.claims)
        (missing_for_request service request [] [])) [
          | inl (no_claim, no_document) ↦ elim lacking [
            | inl misses ↦ absurd (misses no_claim)
            | inr (silent, misses) ↦ absurd (misses (all_listed silent no_document))
          ]
          | inr missing ↦ (ground arith, ground arith)
        ]
    where
      all_listed :
          request.acknowledged_document_ids ≡ none
          → missing_for_request service request [] [] ≡ []
          → missing_document_ids service [] [] ≡ []
      all_listed silent listed = ground arith
