-- ===== src/Platform/Idempotency.antt =====
-- platform/stores.go, the in-memory idempotency store of a Platform, and `IdempotencyInput.Matches`
-- of platform/types.go. Each locked section is one function.
use aep_go.Prelude.{
  Bool, Error, Option, Outcome, Table, Text, blocked, delete, empty, err, error, false,
  if◌then◌else◌, is_empty, is_some, ltb, none, not, ok, put, retain, some, text_eq, ◌&&◌, ◌++◌, ◌+◌,
  ◌==◌, ◌||◌, ◌∷◌,
}
use aep_go.Prelude.Actions.{Action}
use aep_go.Aep.Responses.{StoredResponse, IdempotencyResult, created, replayed, conflict}
use aep_go.Platform.Types.{IdempotentOperation, idempotent_operation_eq}
use aep_go.Aep.Types.{hour, Time}

pub record IdempotencyInput : Type 0 where
  pub canonical_request_hash : Text
  pub idempotency_key : Text
  pub operation : IdempotentOperation
  pub principal : Text
  pub request_hash : Text

-- `IdempotencyInput.Matches`
unfoldable pub matches : IdempotencyInput → IdempotencyInput → Bool
unfolding idempotent_operation_eq text_eq
matches input other =
    if not (text_eq input.principal other.principal)
      || not (idempotent_operation_eq input.operation other.operation)
      || not (text_eq input.idempotency_key other.idempotency_key)
    then false
    else if not (is_empty input.canonical_request_hash)
        && not (is_empty other.canonical_request_hash)
    then text_eq input.canonical_request_hash other.canonical_request_hash
    else text_eq input.request_hash other.request_hash

-- `idempotencyRecord`
pub record Completed : Type 0 where
  pub input : IdempotencyInput
  pub response : StoredResponse

-- `memoryIdempotencyStore`: a key is pending while its entry is present.
pub record IdempotencyStore : Type 0 where
  pub pending : Table (Unit {0})
  pub records : Table Completed

-- `newMemoryIdempotencyStore`
abbrev pub new_idempotency_store : IdempotencyStore
new_idempotency_store = record { pending = empty; records = empty }

-- `input.Principal + "\x00" + input.IdempotencyKey`
unfoldable pub store_key : IdempotencyInput → Text
store_key input = input.principal ++ (0 ∷ input.idempotency_key)

unfoldable pub expire : Time → IdempotencyStore → IdempotencyStore
expire now store = record store {
  records =
      retain (λ (entry : Completed). ltb now (entry.response.created_at + hour)) store.records;
}

-- The operation is one of three constants here, so it is never empty.
unfoldable pub is_complete_input : IdempotencyInput → Bool
is_complete_input input =
    not (is_empty input.principal || is_empty input.idempotency_key || is_empty input.request_hash)

-- What the first locked section decides.
pub data Admission : Type 0 where
  answered : IdempotencyResult → Admission
  wait : Admission
  execute : Admission

unfoldable pub admit : Time → IdempotencyInput → IdempotencyStore → Admission × IdempotencyStore
unfolding expire store_key matches text_eq
admit now input store =
    let live = expire now store in
    let key = store_key input in
    elim (live.records key) [
      | some existing ↦ (
        answered (if matches existing.input input then replayed existing.response else conflict),
        live,
      )
      | none ↦
          if is_some (live.pending key)
          then (wait, live)
          else (execute, record live { pending = put key tt live.pending })
    ]

-- `if response.CreatedAt.IsZero() { response.CreatedAt = store.clock() }`
abbrev pub stamped : Time → StoredResponse → StoredResponse
stamped now response = record response {
  created_at = if response.created_at == 0 then now else response.created_at;
}

-- The locked section after `execute` has returned.
unfoldable pub settle :
    Time
    → IdempotencyInput
    → Outcome StoredResponse
    → IdempotencyStore
    → Outcome IdempotencyResult × IdempotencyStore
unfolding store_key text_eq
settle now input (err e) store =
    (err e, record store { pending = delete (store_key input) store.pending })
settle now input (ok response) store = (
  ok (created (stamped now response)),
  record {
    pending = delete (store_key input) store.pending;
    records =
        put (store_key input) (record { input = input; response = stamped now response })
          store.records;
  },
)

module _ {W : Type 0} (clock : W → Time × W) (cancelled : W → Option Error) where
  -- The second reading of the clock, which a response without a time asks for.
  abbrev pub completion_time : Outcome StoredResponse → W → Time × W
  completion_time (err e) w = (0, w)
  completion_time (ok response) w = if response.created_at == 0 then clock w else (0, w)

  -- `ExecuteIdempotent`, a whole call that no other caller interrupts. The clock, `ctx.Err()` and
  -- `execute` act on a state `W`.
  unfoldable pub execute_idempotent :
      IdempotencyInput
      → Action W StoredResponse
      → IdempotencyStore × W
      → Outcome IdempotencyResult × IdempotencyStore × W
  execute_idempotent input run (store, w) =
      if not (is_complete_input input)
      then (err (error "AEP Platform idempotency store received invalid input"), store, w)
      else elim (cancelled w) [
        | some e ↦ (err e, store, w)
        | none ↦
            let (now, w') = clock w in
            let (admission, store') = admit now input store in
            elim admission [
              | answered result ↦ (ok result, store', w')
              | wait ↦ (err blocked, store', w')
              | execute ↦
                  let (outcome, w'') = run w' in
                  let (after, final) = completion_time outcome w'' in
                  let (result, store'') = settle after input outcome store' in
                  (result, store'', final)
            ]
      ]
