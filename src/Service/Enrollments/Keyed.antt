-- ===== src/Service/Enrollments/Keyed.antt =====
-- What every record of the enrollment store satisfies.
use aep_go.Prelude.{
  Bool-cases, Error, Option, Option-cases, Outcome, Outcome-cases, Text, ap, arith, err, inl, inr,
  ok, put, some, subst, text_eq, text_eq_sound, ◌∙◌, ◌≡◌,
}
use aep_go.Aep.Codec.{clone_claim_values, Stdlib}
use aep_go.Aep.Types.{ClaimValues}
use aep_go.Service.Enrollments.{
  finish_create, EnrollmentStore, validate_enrollment_record, find_or_create_enrollment,
  begin_create, save_enrollment, clone_enrollment, checked_record,
}
use aep_go.Service.Types.{EnrollmentRecord}

-- A record is stored under its own agent, and it passes `validateEnrollmentRecord`.
abbrev pub IsStored : Text → EnrollmentRecord → Type 0
IsStored k r = (r.agent_did ≡ k) × (validate_enrollment_record r ≡ ok tt)

abbrev pub IsWellKeyed : EnrollmentStore → Type 0
IsWellKeyed store = (k : Text) (r : EnrollmentRecord) → store.records k ≡ some r → IsStored k r

abbrev replace_claims : EnrollmentRecord → Option ClaimValues → EnrollmentRecord
replace_claims r c = record r { claims = c }

-- A clone differs in nothing but its claims.
pub clone_enrollment-eq :
    (lib : Stdlib) (r copy : EnrollmentRecord)
    → clone_enrollment lib r ≡ ok copy
    → copy ≡ replace_claims r copy.claims
unfolding clone_enrollment
clone_enrollment-eq lib r copy e = elim (Outcome-cases (clone_claim_values lib r.claims)) [
  | inl (failure, failed) ↦ absurd (ground arith)
  | inr (claims, cloned) ↦ ground arith
]

validate_clone :
    (lib : Stdlib) (r copy : EnrollmentRecord)
    → clone_enrollment lib r ≡ ok copy
    → validate_enrollment_record copy ≡ validate_enrollment_record r
unfolding validate_enrollment_record
validate_clone lib r copy e = ap validate_enrollment_record (clone_enrollment-eq lib r copy e)

agent_of_clone :
    (lib : Stdlib) (r copy : EnrollmentRecord)
    → clone_enrollment lib r ≡ ok copy
    → copy.agent_did ≡ r.agent_did
agent_of_clone lib r copy e =
    ap (λ (c : EnrollmentRecord). c.agent_did) (clone_enrollment-eq lib r copy e)

checked_record-IsStored :
    (lib : Stdlib) (k : Text) (created : Outcome EnrollmentRecord) (r : EnrollmentRecord)
    → checked_record lib k created ≡ ok r
    → IsStored k r
unfolding checked_record
checked_record-IsStored lib k (err e) r h = cc
checked_record-IsStored lib k (ok c) r h = elim (Outcome-cases (validate_enrollment_record c)) [
  | inl (failure, invalid) ↦ absurd (ground arith)
  | inr (unit, valid) ↦
      let same : c.agent_did ≡ k = ground (arith, text_eq_sound c.agent_did k) in
      let cloned : clone_enrollment lib c ≡ ok r = ground arith in
      (agent_of_clone lib c r cloned ∙ same, validate_clone lib c r cloned ∙ valid)
]

put-IsWellKeyed :
    (store : EnrollmentStore) (k : Text) (r : EnrollmentRecord)
    → IsWellKeyed store
    → IsStored k r
    → (j : Text) (found : EnrollmentRecord) → put k r store.records j ≡ some found
    → IsStored j found
put-IsWellKeyed store k r h stored j found e = elim (Bool-cases (text_eq k j)) [
  | inl same ↦
      let at : k ≡ j = text_eq_sound k j same in
      let it : r ≡ found = ground arith in
      subst (λ p. IsStored p found) at (subst (λ q. IsStored k q) it stored)
  | inr other ↦ h j found (ground arith)
]

-- Whatever the create function returns, `FindOrCreateEnrollment` keeps every record of the store
-- under its own agent and valid.
pub find_or_create_enrollment-IsWellKeyed {ℓ} :
    {W : Type ℓ} (lib : Stdlib) (cancelled : Option Error) (agent_did : Text)
    (make : W → Outcome EnrollmentRecord × W) (store : EnrollmentStore) (w : W)
    → IsWellKeyed store
    → IsWellKeyed (find_or_create_enrollment lib cancelled agent_did make (store, w)).1
unfolding find_or_create_enrollment begin_create finish_create
find_or_create_enrollment-IsWellKeyed lib cancelled agent_did make store w h k r e =
    elim (Outcome-cases (checked_record lib agent_did (make w).0)) [
      | inl (failure, failed) ↦ h k r (ground arith)
      | inr (stored, checked) ↦
          let p = checked_record-IsStored lib agent_did (make w).0 stored checked in
          elim (Option-cases (store.records k)) [
            | inl absent ↦ put-IsWellKeyed store agent_did stored h p k r (ground arith)
            | inr (found, present) ↦
                ground (arith, h k r, put-IsWellKeyed store agent_did stored h p k r)
          ]
    ]

-- `SaveEnrollment` keeps every record of the store under its own agent and valid.
pub save_enrollment-IsWellKeyed :
    (lib : Stdlib) (cancelled : Option Error) (r : EnrollmentRecord) (store : EnrollmentStore)
    → IsWellKeyed store
    → IsWellKeyed (save_enrollment lib cancelled r store).1
unfolding save_enrollment
save_enrollment-IsWellKeyed lib cancelled r store h k found e =
    elim (Outcome-cases (clone_enrollment lib r)) [
      | inl (failure, failed) ↦ h k found (ground arith)
      | inr (copy, cloned) ↦ elim (Outcome-cases (validate_enrollment_record r)) [
        | inl (failure, invalid) ↦ h k found (ground arith)
        | inr (unit, valid) ↦
            let p : IsStored r.agent_did copy =
              (agent_of_clone lib r copy cloned, validate_clone lib r copy cloned ∙ valid) in
            ground (arith, h k found, put-IsWellKeyed store r.agent_did copy h p k found)
      ]
    ]
