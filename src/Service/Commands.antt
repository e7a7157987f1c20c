-- ===== src/Service/Commands.antt =====
-- service/commands.go: the commands of a Service, each as one function of the state that commands
-- share. A command runs uninterrupted here; how the callers of its idempotency store interleave is
-- modelled with the store.
pub mod Enroll
pub mod Status
pub mod Grant
pub mod Revoke
pub mod Repeated
use aep_go.Prelude.{
  Bool, Option, Outcome, Text, [], bytes, err, is_empty, none, not, ok, some, ◌++◌,
}
use aep_go.Service.Types.{created, replayed, conflict}
use aep_go.Prelude.Actions.{Action}
use aep_go.Aep.Codec.{Stdlib}
use aep_go.Aep.Types.{
  ErrorCode, invalid_request, AssertionOperation, idempotency_conflict, Time, ClientAssertionClaims,
}
use aep_go.Service.Config.{Service, Core}
use aep_go.Service.Idempotency.{execute_idempotent, IdempotencyStore}
use aep_go.Service.Recognition.{authenticate_assertion}
use aep_go.Service.Replies.{problem_result, parse_stored_result, store_result}
use aep_go.Service.Types.{
  Reply, IdempotentCommand, CommandOptions, IdempotencyResult, StoredResponse, IdempotencyInput,
}

-- The idempotency store and the rest.
abbrev pub Session : Type 0 → Type 0
Session W = IdempotencyStore × Core W

abbrev pub core_clock : {W : Type 0} → Service W → Core W → Time × Core W
core_clock service s = let (now, w) = service.clock s.external in (now, record s { external = w })

abbrev pub not_recognized_reply : {Body : Type 0} → Reply Body
not_recognized_reply = problem_result ErrorCode.not_recognized "Not recognized" 401

abbrev pub invalid_request_reply : {Body : Type 0} → Reply Body
invalid_request_reply = problem_result ErrorCode.invalid_request "Invalid request" 400

module _ {W : Type 0} (lib : Stdlib) (service : Service W) where
  -- `validIdempotencyKey`
  unfoldable pub valid_idempotency_key : Text → Bool
  valid_idempotency_key key = not (is_empty (lib.trim_space key))

  unfoldable pub idempotency_input :
      Text → IdempotentCommand → Text → (encoded canonical : Text) → IdempotencyInput
  idempotency_input agent_did command key encoded canonical = record {
    canonical_request_hash = bytes "sha256:" ++ lib.sha256 canonical;
    agent_did = agent_did;
    command = command;
    idempotency_key = key;
    request_hash = bytes "sha256:" ++ lib.sha256 encoded;
  }

  module _ {Body : Type 0} (encode : Option Body → Outcome Text) (parse : Text → Outcome Body) where
    -- The function that the idempotency store calls.
    unfoldable pub stored_run : Action (Core W) (Reply Body) → Action (Core W) StoredResponse
    unfolding store_result
    stored_run run s =
        let (outcome, s') = run s in
        elim outcome [
          | err e ↦ (err e, s')
          | ok reply ↦
              let (now, s'') = core_clock service s' in (store_result lib encode reply now, s'')
        ]

    unfoldable pub idempotent_reply : Outcome IdempotencyResult → Outcome (Reply Body)
    unfolding problem_result parse_stored_result
    idempotent_reply (err e) = err e
    idempotent_reply (ok conflict) =
        ok (problem_result ErrorCode.idempotency_conflict "Idempotency conflict" 409)
    idempotent_reply (ok (created response)) = parse_stored_result lib parse response
    idempotent_reply (ok (replayed response)) = parse_stored_result lib parse response

    -- `executeIdempotent`; `encoded` is `json.Marshal(request)`
    unfoldable pub execute_command :
        Text
        → IdempotentCommand
        → (key : Text) → (encoded : Outcome Text) → Action (Core W) (Reply Body)
        → Session W
        → Outcome (Reply Body) × Session W
    execute_command agent_did command key (err e) run s = (err e, s)
    execute_command agent_did command key (ok encoded) run s = elim (lib.canonical encoded) [
      | err e ↦ (err e, s)
      | ok canonical ↦
          let (result, store, core) =
            execute_idempotent (core_clock service)
              (idempotency_input agent_did command key encoded canonical) (stored_run run) s in
          (idempotent_reply result, (store, core))
    ]

  -- A command runs only for claims that are recognized.
  unfoldable pub recognized_command :
      {Body : Type 0}
      → CommandOptions
      → AssertionOperation
      → (ClientAssertionClaims → Session W → Outcome (Reply Body) × Session W)
      → Session W
      → Outcome (Reply Body) × Session W
  unfolding authenticate_assertion problem_result
  recognized_command options operation run (store, s) =
      let (recognized, s') = authenticate_assertion lib service options operation [] s in
      elim recognized [
        | err e ↦ (err e, (store, s'))
        | ok none ↦ (ok not_recognized_reply, (store, s'))
        | ok (some claims) ↦ run claims (store, s')
      ]
