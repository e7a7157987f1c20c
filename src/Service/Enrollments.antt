-- ===== src/Service/Enrollments.antt =====
-- service/stores.go, the in-memory enrollment store. Each locked section is one function; a caller
-- that finds the agent pending waits for the channel and starts again. A clone differs from its
-- original in nothing but its claims, which are encoded and parsed again.
pub mod Keyed
use aep_go.Prelude.{
  Bool, Error, Option, Outcome, Table, Text, blocked, delete, empty, err, error, fail_if, false,
  if◌then◌else◌, is_empty, is_some, none, not, ok, put, some, text_eq, true, ◌==◌, ◌>>=◌, ◌>>◌,
  ◌||◌,
}
use aep_go.Aep.Types.{AgentStatus}
use aep_go.Service.Types.{EnrollmentRecord}
use aep_go.Aep.Codec.{Stdlib, clone_claim_values}

pub record EnrollmentStore : Type 0 where
  pub pending : Table (Unit {0})
  pub records : Table EnrollmentRecord

abbrev pub new_enrollment_store : EnrollmentStore
new_enrollment_store = record { pending = empty; records = empty }

abbrev is_registered_status : AgentStatus → Bool
is_registered_status (AgentStatus.unregistered _) = false
is_registered_status _ = true

-- `validateEnrollmentRecord`
unfoldable pub validate_enrollment_record : EnrollmentRecord → Outcome (Unit {0})
validate_enrollment_record r = do
  fail_if
      (is_empty r.agent_did
        || is_empty r.enrollment_id
        || r.created_at == 0
        || r.since == 0
        || r.updated_at == 0)
      (error "AEP enrollment store received an invalid record")
  fail_if (not (is_registered_status r.status))
      (error "AEP enrollment store received an invalid enrollment status")

-- What the first locked section of `FindOrCreateEnrollment` decides.
pub data Creation : Type 0 where
  failed : Error → Creation
  existing : Outcome EnrollmentRecord → Creation
  wait : Creation
  create : Creation

module _ (lib : Stdlib) where
  -- `cloneEnrollment`
  unfoldable pub clone_enrollment : EnrollmentRecord → Outcome EnrollmentRecord
  unfolding clone_claim_values
  clone_enrollment r = do
    claims ← clone_claim_values lib r.claims
    ok (record r { claims = claims })

  -- `FindEnrollment`. `cancelled` is `ctx.Err()`.
  unfoldable pub find_enrollment :
      Option Error → Text → EnrollmentStore → Outcome (Option EnrollmentRecord)
  unfolding clone_enrollment
  find_enrollment (some cancelled) agent_did store = err cancelled
  find_enrollment none agent_did store = elim (store.records agent_did) [
    | none ↦ ok none
    | some r ↦ clone_enrollment r >>= λ copy. ok (some copy)
  ]

  unfoldable pub begin_create : Option Error → Text → EnrollmentStore → Creation × EnrollmentStore
  unfolding clone_enrollment text_eq
  begin_create cancelled agent_did store =
      if is_empty agent_did
      then (failed (error "AEP enrollment store requires a create function"), store)
      else elim cancelled [
        | some e ↦ (failed e, store)
        | none ↦ elim (store.records agent_did) [
          | some r ↦ (existing (clone_enrollment r), store)
          | none ↦
              if is_some (store.pending agent_did)
              then (wait, store)
              else (create, record store { pending = put agent_did tt store.pending })
        ]
      ]

  -- The checks on what `create` returned.
  unfoldable pub checked_record : Text → Outcome EnrollmentRecord → Outcome EnrollmentRecord
  unfolding clone_enrollment validate_enrollment_record text_eq
  checked_record agent_did created = do
    r ← created
    validate_enrollment_record r
    fail_if (not (text_eq r.agent_did agent_did))
        (error "AEP enrollment store record does not match the requested Agent DID")
    clone_enrollment r

  -- The locked section after `create` has returned.
  unfoldable pub finish_create :
      Text → Outcome EnrollmentRecord → EnrollmentStore → Outcome EnrollmentRecord × EnrollmentStore
  unfolding clone_enrollment text_eq
  finish_create agent_did (err e) store =
      (err e, record store { pending = delete agent_did store.pending })
  finish_create agent_did (ok stored) store = (
    clone_enrollment stored,
    record {
      pending = delete agent_did store.pending;
      records = put agent_did stored store.records;
    },
  )

  -- A whole call that no other caller interrupts. The Boolean tells whether the record is new.
  unfoldable pub find_or_create_enrollment {ℓ} :
      {W : Type ℓ}
      → Option Error
      → Text
      → (W → Outcome EnrollmentRecord × W)
      → EnrollmentStore × W
      → Outcome (EnrollmentRecord × Bool) × EnrollmentStore × W
  unfolding begin_create finish_create checked_record
  find_or_create_enrollment cancelled agent_did make (store, w) =
      let (decision, store') = begin_create cancelled agent_did store in
      elim decision [
        | failed e ↦ (err e, store', w)
        | existing copy ↦ (copy >>= λ r. ok (r, false), store', w)
        | wait ↦ (err blocked, store', w)
        | create ↦
            let (created, w') = make w in
            let (result, store'') =
              finish_create agent_did (checked_record agent_did created) store' in
            (result >>= λ r. ok (r, true), store'', w')
      ]

  -- `SaveEnrollment`
  unfoldable pub save_enrollment :
      Option Error → EnrollmentRecord → EnrollmentStore → Outcome EnrollmentRecord × EnrollmentStore
  unfolding clone_enrollment validate_enrollment_record text_eq
  save_enrollment cancelled r store = elim (validate_enrollment_record r) [
    | err e ↦ (err e, store)
    | ok _ ↦ elim cancelled [
      | some e ↦ (err e, store)
      | none ↦
          if is_some (store.pending r.agent_did)
          then (err blocked, store)
          else elim (clone_enrollment r) [
            | err e ↦ (err e, store)
            | ok stored ↦ (
              clone_enrollment stored,
              record store { records = put r.agent_did stored store.records },
            )
          ]
    ]
  ]
