-- ===== src/Service/Idempotency.antt =====
-- service/stores.go, the in-memory idempotency store. Each locked section is one function: what a
-- call does before `execute`, and what it does after. A caller that finds its key pending waits
-- for the channel and starts again.
pub mod Laws
pub mod Progress
pub mod Interleaving
use aep_go.Prelude.{
  Bool, Outcome, Table, Text, blocked, delete, empty, err, error, if◌then◌else◌, is_empty, is_some,
  ltb, none, not, ok, put, retain, some, text_eq, ◌++◌, ◌+◌, ◌==◌, ◌||◌, ◌∷◌,
}
use aep_go.Aep.Types.{Time, hour}
use aep_go.Service.Types.{
  StoredResponse, IdempotencyInput, matches, IdempotencyResult, created, replayed, conflict,
}

pub record Completed : Type 0 where
  pub input : IdempotencyInput
  pub response : StoredResponse

-- `memoryIdempotencyStore`: a key is pending while its entry is present.
pub record IdempotencyStore : Type 0 where
  pub pending : Table (Unit {0})
  pub records : Table Completed

abbrev pub new_idempotency_store : IdempotencyStore
new_idempotency_store = record { pending = empty; records = empty }

-- `input.AgentDID + "\x00" + input.IdempotencyKey`
unfoldable pub idempotency_key : IdempotencyInput → Text
idempotency_key input = input.agent_did ++ (0 ∷ input.idempotency_key)

-- `record.response.CreatedAt.Add(time.Hour).After(now)`
abbrev pub is_live : Time → Completed → Bool
is_live now entry = ltb now (entry.response.created_at + hour)

unfoldable pub expire : Time → IdempotencyStore → IdempotencyStore
expire now store = record store { records = retain (is_live now) store.records }

-- `CreatedAt`, `AgentDID`, `Command`, `IdempotencyKey` and `RequestHash` are checked for the empty
-- string; a command is one of three constants here, so it is never empty.
unfoldable pub is_complete_input : IdempotencyInput → Bool
is_complete_input input =
    not (is_empty input.agent_did || is_empty input.idempotency_key || is_empty input.request_hash)

-- What the first locked section decides.
pub data Admission : Type 0 where
  invalid : Admission
  answered : IdempotencyResult → Admission
  wait : Admission
  execute : Admission

unfoldable pub admit : Time → IdempotencyInput → IdempotencyStore → Admission × IdempotencyStore
unfolding expire is_complete_input idempotency_key matches text_eq
admit now input store =
    if not (is_complete_input input)
    then (invalid, store)
    else let live = expire now store in
      let key = idempotency_key input in
      elim (live.records key) [
        | some existing ↦ (
          answered (if matches existing.input input then replayed existing.response else conflict),
          live,
        )
        | none ↦
            if is_some (live.pending key)
            then (wait, live)
            else (execute, record live { pending = put key tt live.pending })
      ]

-- `if response.CreatedAt.IsZero() { response.CreatedAt = store.clock() }`
abbrev pub stamped : Time → StoredResponse → StoredResponse
stamped now response = record response {
  created_at = if response.created_at == 0 then now else response.created_at;
}

-- The locked section after `execute` has returned.
unfoldable pub settle :
    Time
    → IdempotencyInput
    → Outcome StoredResponse
    → IdempotencyStore
    → Outcome IdempotencyResult × IdempotencyStore
unfolding idempotency_key text_eq
settle now input (err e) store =
    (err e, record store { pending = delete (idempotency_key input) store.pending })
settle now input (ok response) store = (
  ok (created (stamped now response)),
  record {
    pending = delete (idempotency_key input) store.pending;
    records =
        put (idempotency_key input) (record { input = input; response = stamped now response })
          store.records;
  },
)

-- The second reading of the clock, which a response without a time asks for.
abbrev completion_time {ℓ} : {W : Type ℓ} → (W → Time × W) → Outcome StoredResponse → W → Time × W
completion_time clock (err e) w = (0, w)
completion_time clock (ok response) w = if response.created_at == 0 then clock w else (0, w)

-- A whole call that no other caller interrupts. The clock and `execute` act on a state `W`.
unfoldable pub execute_idempotent {ℓ} :
    {W : Type ℓ} (clock : W → Time × W)
    → IdempotencyInput
    → (W → Outcome StoredResponse × W)
    → IdempotencyStore × W
    → Outcome IdempotencyResult × IdempotencyStore × W
execute_idempotent clock input run (store, w) =
    let (now, w') = clock w in
    let (admission, store') = admit now input store in
    elim admission [
      | invalid ↦ (err (error "AEP idempotency store received invalid input"), store', w)
      | answered result ↦ (ok result, store', w')
      | wait ↦ (err blocked, store', w')
      | execute ↦
          let (outcome, w'') = run w' in
          let (after, final) = completion_time clock outcome w'' in
          let (result, store'') = settle after input outcome store' in (result, store'', final)
    ]
