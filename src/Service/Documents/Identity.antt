-- ===== src/Service/Documents/Identity.antt =====
-- What an enroll request may change of a record that exists.
use aep_go.Prelude.{
  Bool-cases, Error, Option, Option-cases, Outcome-cases, Text, arith, inl, inr, refl, some,
  text_eq, text_eq_sound, ◌≡◌, ◌⊎◌,
}
use aep_go.Aep.Codec.{Stdlib}
use aep_go.Aep.Types.{EnrollRequest, Time, ClaimValues}
use aep_go.Service.Config.{Core, Service}
use aep_go.Service.Documents.{apply_update, save_record, updated_record, update_enrollment}
use aep_go.Service.Enrollments.{
  EnrollmentStore, clone_enrollment, save_enrollment, validate_enrollment_record,
}
use aep_go.Service.Enrollments.Keyed.{clone_enrollment-eq}
use aep_go.Service.Merge.{merge_document_claims}
use aep_go.Service.Types.{EnrollmentDecision, EnrollmentRecord}

-- What identifies an enrollment, and where its agent stands.
abbrev pub SameEnrollment : EnrollmentRecord → EnrollmentRecord → Type 0
SameEnrollment a b =
    (a.agent_did ≡ b.agent_did)
    × (a.enrollment_id ≡ b.enrollment_id)
    × (a.created_at ≡ b.created_at)
    × (a.since ≡ b.since)
    × (a.status ≡ b.status)

module _ {W : Type 0} (lib : Stdlib) (service : Service W) where
  -- The record of every agent is as it was, or it is the one of `r` and the same enrollment.
  abbrev pub ChangesOnly : EnrollmentRecord → EnrollmentStore → EnrollmentStore → Type 0
  ChangesOnly r before after =
      (k : Text)
      → (after.records k ≡ before.records k)
        ⊎ ((r.agent_did ≡ k)
            × ((saved : EnrollmentRecord) × (after.records k ≡ some saved)
                × SameEnrollment saved r))

  save_enrollment-ChangesOnly :
      (cancelled : Option Error) (r u : EnrollmentRecord) (store : EnrollmentStore)
      → SameEnrollment u r
      → ChangesOnly r store (save_enrollment lib cancelled u store).1
  unfolding save_enrollment
  save_enrollment-ChangesOnly cancelled r u store same k =
      elim (Outcome-cases (clone_enrollment lib u)) [
        | inl (failure, failed) ↦ inl (ground arith)
        | inr (copy, cloned) ↦
            let eq = clone_enrollment-eq lib u copy cloned in
            elim (Bool-cases (text_eq u.agent_did k)) [
              | inr other ↦ inl (ground arith)
              | inl at ↦ elim (Option-cases (store.pending u.agent_did)) [
                | inr (held, busy) ↦ inl (ground arith)
                | inl free ↦ elim (Outcome-cases (validate_enrollment_record u)) [
                  | inl (failure, invalid) ↦ inl (ground arith)
                  | inr (unit, valid) ↦ elim (Option-cases cancelled) [
                    | inr (e, stopped) ↦ inl (ground arith)
                    | inl going ↦ inr (
                      ground (arith, text_eq_sound u.agent_did k),
                      (copy, ground arith, ground arith),
                    )
                  ]
                ]
              ]
            ]
      ]

  updated_record-SameEnrollment :
      (request : EnrollRequest) (decision : EnrollmentDecision) (merged : Option ClaimValues)
      (now : Time) (r : EnrollmentRecord)
      → SameEnrollment (updated_record service request decision merged now r) r
  unfolding updated_record
  updated_record-SameEnrollment request decision merged now r = (refl, refl, refl, refl, refl)

  apply_update-ChangesOnly :
      (request : EnrollRequest) (decision : EnrollmentDecision) (r : EnrollmentRecord) (s : Core W)
      → ChangesOnly r s.enrollments (apply_update lib service request decision r s).1.enrollments
  unfolding apply_update save_record
  apply_update-ChangesOnly request decision r s k =
      elim (Outcome-cases (merge_document_claims lib r.claims request.claims)) [
        | inl (failure, failed) ↦ inl (ground arith)
        | inr (merged, merges) ↦
            let (now, w) = service.clock s.external in
            ground (
              arith,
              save_enrollment-ChangesOnly (service.cancelled w) r
                  (updated_record service request decision merged now r) s.enrollments
                  (updated_record-SameEnrollment request decision merged now r) k,
            )
      ]

  -- Whatever the policy decides, an enroll request of an agent that has a record changes the record
  -- of no other agent, and it changes neither the identifier, nor the creation time, nor the status
  -- of that agent's enrollment.
  pub update_enrollment-ChangesOnly :
      (request : EnrollRequest) (r : EnrollmentRecord) (s : Core W)
      → ChangesOnly r s.enrollments (update_enrollment lib service request r s).1.enrollments
  unfolding update_enrollment
  update_enrollment-ChangesOnly request r s k =
      let (now, w) = service.clock s.external in
      let (outcome, w') = service.decide_enrollment request now w in
      elim (Outcome-cases outcome) [
        | inl (failure, failed) ↦ inl (ground arith)
        | inr (decision, decided) ↦
            ground
              (arith, apply_update-ChangesOnly request decision r (record s { external = w' }) k)
      ]
