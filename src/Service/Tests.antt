-- ===== src/Service/Tests.antt =====
-- Runs of the stores on concrete values.
use aep_go.Prelude.{
  List, Outcome, Text, [], arith, bytes, empty, none, ok, put, refl, suc, text_eq, true, ℕ, ◌+◌,
  ◌↔◌, ◌∷◌, ◌≡◌,
}
use aep_go.Prelude.Int64.{pos}
use aep_go.Service.Idempotency.Interleaving.{next, begin, admitted, Removes, System}
use aep_go.Aep.Types.{media_type}
use aep_go.Service.Idempotency.{
  settle, expire, admit, new_idempotency_store, execute_idempotent, idempotency_key,
  is_complete_input, IdempotencyStore,
}
use aep_go.Service.Idempotency.Interleaving.{HasDistinctKeys, Absent, single_flight}
use aep_go.Service.Idempotency.Laws.{
  retry_answer, IsReplayOf, admit-IsReplayOf, retry_runs_nothing, after_all, StoreCall,
}
use aep_go.Service.Replay.{consume_replay, consume_all, ReplayRecords, ReplayCall}
use aep_go.Service.Replay.Safety.{Refused, consume_replay_iff, replay-Refused, IsFresh}
use aep_go.Service.Types.{
  IdempotentCommand, command_eq, StoredResponse, ReplayRecord, matches, IdempotencyInput,
  IdempotencyResult,
}
use aep_go.Service.Idempotency.Progress.{waiting_ends, GoesOn}

abbrev used : ReplayRecord
used = record { expires_at = pos 500; jwt_id = bytes "1"; subject = bytes "did:web:a" }

abbrev no_replays : ReplayRecords
no_replays _ = none

consume_replay_iff_example :
    ((consume_replay none used (pos 100) no_replays).0 ≡ ok true)
    ↔ IsFresh no_replays used (pos 100)
consume_replay_iff_example = consume_replay_iff used (pos 100) no_replays

abbrev presented_again : List ReplayCall
presented_again = record { cancelled = none; presented = used; now = pos 200 } ∷ []

replay-Refused_example :
    Refused used presented_again
      (consume_all presented_again (consume_replay none used (pos 100) no_replays).1).0
unfolding consume_replay
replay-Refused_example =
    replay-Refused used (pos 100) presented_again no_replays refl (omega arith, tt)

abbrev first_input : IdempotencyInput
first_input = record {
  canonical_request_hash = bytes "sha256:c";
  agent_did = bytes "did:web:a";
  command = IdempotentCommand.grant;
  idempotency_key = bytes "k";
  request_hash = bytes "sha256:r";
}

abbrev granted : StoredResponse
granted = record {
  body = bytes "{}";
  content_type = media_type;
  created_at = 10;
  headers = [];
  status = 200;
}

abbrev answered_store : IdempotencyStore
answered_store = record {
  pending = empty;
  records =
      put (idempotency_key first_input) (record { input = first_input; response = granted }) empty;
}

admit-IsReplayOf_example : IsReplayOf 20 first_input answered_store granted
unfolding admit idempotency_key matches command_eq text_eq expire is_complete_input
admit-IsReplayOf_example = admit-IsReplayOf 20 first_input answered_store granted refl

-- A state that counts executions and the readings of a clock that starts at 10.
abbrev Counts : Type 0
Counts = ℕ × ℕ

abbrev ticking : Counts → ℕ × Counts
ticking (n, t) = (t + 10, (n, suc t))

abbrev run_once : Counts → Outcome StoredResponse × Counts
run_once (n, t) = (ok granted, (suc n, t))

abbrev first_run : Outcome IdempotencyResult × IdempotencyStore × Counts
first_run = execute_idempotent ticking first_input run_once (new_idempotency_store, (0, 0))

-- A call of another agent that comes between.
abbrev other_call : StoreCall Counts
other_call = record {
  input = record first_input { agent_did = bytes "did:web:b" };
  run = run_once;
  state = (1, 1);
}

retry_runs_nothing_example :
    let later = after_all ticking (other_call ∷ []) first_run.1 in
    execute_idempotent ticking first_input run_once (later, (2, 2))
    ≡ (ok (retry_answer first_input granted first_input), expire 12 later, (2, 3))
unfolding execute_idempotent admit idempotency_key command_eq text_eq expire is_complete_input
    settle
retry_runs_nothing_example =
    retry_runs_nothing ticking first_input first_input run_once run_once new_idempotency_store
      (0, 0) (2, 2) granted (other_call ∷ []) refl refl refl refl (omega arith, tt) (omega arith)

single_flight_example :
    HasDistinctKeys (first_input ∷ [])
    × ((k : Text)
        → ((admit 10 first_input new_idempotency_store).1.pending k ≡ none)
          ↔ Absent k (first_input ∷ []))
unfolding admit idempotency_key expire is_complete_input
single_flight_example = single_flight (next begin (admitted 10 first_input refl))

abbrev waiting_system : System
waiting_system = record {
  store = (admit 10 first_input new_idempotency_store).1;
  running = first_input ∷ [];
}

waiting_ends_example :
    (other : IdempotencyInput) × (rest : List IdempotencyInput) × Removes other
      waiting_system.running rest
    × (idempotency_key other ≡ idempotency_key first_input)
    × GoesOn (admit 12 first_input (settle 11 other (ok granted) waiting_system.store).1).0
unfolding admit idempotency_key expire is_complete_input
waiting_ends_example =
    waiting_ends 10 12 11 first_input (ok granted) (next begin (admitted 10 first_input refl)) refl
