-- ===== src/Service/Commands/Repeated.antt =====
-- A command that is repeated with its idempotency key.
use aep_go.Prelude.{
  All, List, Option, Outcome, Text, ap, arith, if◌then◌else◌, ok, refl, subst, sym, text_eq_refl,
  true, ◌+◌, ◌<◌, ◌∙◌, ◌≡◌,
}
use aep_go.Prelude.Actions.{Action}
use aep_go.Service.Types.{
  created, replayed, conflict, IdempotencyResult, StoredResponse, matches, command_eq,
  IdempotencyInput, IdempotentCommand, Reply,
}
use aep_go.Aep.Codec.{Stdlib}
use aep_go.Aep.Types.{hour, Time}
use aep_go.Service.Commands.{
  idempotent_reply, Session, execute_command, core_clock, idempotency_input, stored_run,
}
use aep_go.Service.Config.{Core, Service}
use aep_go.Service.Idempotency.{
  expire, IdempotencyStore, admit, execute_idempotent, is_complete_input,
}
use aep_go.Service.Idempotency.Laws.{retry_runs_nothing, StoreCall, after_all}

command_eq_refl : (c : IdempotentCommand) → command_eq c c ≡ true
unfolding command_eq
command_eq_refl IdempotentCommand.enroll = refl
command_eq_refl IdempotentCommand.grant = refl
command_eq_refl IdempotentCommand.revoke = refl

matches_refl : (input : IdempotencyInput) → matches input input ≡ true
unfolding matches
matches_refl input = ground (
  arith,
  text_eq_refl input.agent_did,
  command_eq_refl input.command,
  text_eq_refl input.idempotency_key,
  text_eq_refl input.canonical_request_hash,
  text_eq_refl input.request_hash,
)

created_is_complete {ℓ} :
    {W : Type ℓ} (clock : W → Time × W) (input : IdempotencyInput)
    (run : W → Outcome StoredResponse × W) (store : IdempotencyStore) (w : W)
    {response : StoredResponse}
    → (execute_idempotent clock input run (store, w)).0 ≡ ok (created response)
    → is_complete_input input ≡ true
unfolding execute_idempotent admit
created_is_complete clock input run store w e = ground arith

-- The same request again, after other calls of the store.
repeated_is_replayed {ℓ} :
    {W : Type ℓ} (clock : W → Time × W) (input : IdempotencyInput)
    (run run' : W → Outcome StoredResponse × W) (store : IdempotencyStore) (w v : W)
    (response : StoredResponse) (between : List (StoreCall W))
    → (execute_idempotent clock input run (store, w)).0 ≡ ok (created response)
    → All (λ (c : StoreCall W). (clock c.state).0 < response.created_at + hour) between
    → (clock v).0 < response.created_at + hour
    → let store' = after_all clock between (execute_idempotent clock input run (store, w)).1 in
      execute_idempotent clock input run' (store', v)
      ≡ (ok (replayed response), expire (clock v).0 store', (clock v).1)
repeated_is_replayed clock input run run' store w v response between e meanwhile live =
    let store' = after_all clock between (execute_idempotent clock input run (store, w)).1 in
    subst
      (λ b.
        execute_idempotent clock input run' (store', v)
        ≡ (ok (if b then replayed response else conflict), expire (clock v).0 store', (clock v).1))
      (matches_refl input)
      (retry_runs_nothing clock input input run run' store w v response between e
        (created_is_complete clock input run store w e) refl refl meanwhile live)

module _ {W : Type 0} (lib : Stdlib) (service : Service W) {Body : Type 0}
    (encode : Option Body → Outcome Text) (parse : Text → Outcome Body) (agent_did : Text)
    (command : IdempotentCommand) (key encoded canonical : Text) where
  abbrev pub input_of : IdempotencyInput
  input_of = idempotency_input lib service agent_did command key encoded canonical

  abbrev pub store_call :
      Action (Core W) (Reply Body) → Session W → Outcome IdempotencyResult × Session W
  store_call run (store, s) =
      let (result, store', s') =
        execute_idempotent (core_clock service) input_of (stored_run lib service encode parse run)
          (store, s) in
      (result, (store', s'))

  execute_command-store_call :
      (run : Action (Core W) (Reply Body)) (s : Session W)
      → lib.canonical encoded ≡ ok canonical
      → execute_command lib service encode parse agent_did command key (ok encoded) run s
        ≡ (idempotent_reply lib service encode parse (store_call run s).0, (store_call run s).1)
  unfolding execute_command
  execute_command-store_call run s canonical_of = ground arith

  replayed_reply :
      (response : StoredResponse)
      → idempotent_reply lib service encode parse (ok (replayed response))
        ≡ idempotent_reply lib service encode parse (ok (created response))
  unfolding idempotent_reply
  replayed_reply response = refl

  -- Once a command has created a response, and whatever commands of any agents reach the store in
  -- between, the same request of the same agent with the same key gets the same reply as long as
  -- all of them find the clock less than an hour after the creation. Nothing of the command runs
  -- again: but for the clock the state is as it was, and the idempotency store only drops what has
  -- expired.
  pub execute_command_again :
      (run run' : Action (Core W) (Reply Body)) (store : IdempotencyStore) (s t : Core W)
      (response : StoredResponse) (between : List (StoreCall (Core W)))
      → lib.canonical encoded ≡ ok canonical
      → (store_call run (store, s)).0 ≡ ok (created response)
      → All
          (λ (c : StoreCall (Core W)). (core_clock service c.state).0 < response.created_at + hour)
          between
      → (core_clock service t).0 < response.created_at + hour
      → let (reply, after) =
          execute_command lib service encode parse agent_did command key
            (ok encoded)
            run
            (store, s) in
        let later = after_all (core_clock service) between after.0 in
        execute_command lib service encode parse agent_did command key (ok encoded) run' (later, t)
        ≡ (reply, (expire (core_clock service t).0 later, (core_clock service t).1))
  execute_command_again run run' store s t response between canonical_of e meanwhile live =
      let again =
        repeated_is_replayed (core_clock service) input_of (stored_run lib service encode parse run)
          (stored_run lib service encode parse run') store s t response between e meanwhile live in
      let later = after_all (core_clock service) between (store_call run (store, s)).1.0 in
      let first = execute_command-store_call run (store, s) canonical_of in
      let second = execute_command-store_call run' (later, t) canonical_of in
      let reply_of = idempotent_reply lib service encode parse in
      let same : reply_of (ok (replayed response)) ≡ reply_of (store_call run (store, s)).0 =
        replayed_reply response ∙ ap reply_of (sym e) in
      subst
        (λ (q : Outcome (Reply Body) × Session W).
          let after = after_all (core_clock service) between q.1.0 in
          execute_command lib service encode parse agent_did command key (ok encoded) run'
            (after, t)
          ≡ (q.0, (expire (core_clock service t).0 after, (core_clock service t).1)))
        (sym first)
        (second
          ∙ (ap (λ q. (reply_of q.0, (q.1, q.2))) again
              ∙ ap (λ r. (r, (expire (core_clock service t).0 later, (core_clock service t).1)))
                  same))
