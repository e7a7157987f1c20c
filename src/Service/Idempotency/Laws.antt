-- ===== src/Service/Idempotency/Laws.antt =====
-- What a caller of the idempotency store can rely on.
use aep_go.Prelude.{
  All, List, Option-cases, Outcome, Text, [], arith, if◌then◌else◌, inl, inr, ok, refl, some,
  text_eq_refl, text_eq_sound, true, ◌+◌, ◌<◌, ◌∷◌, ◌≡◌, ◌≢◌, ◌⊎◌,
}
use aep_go.Aep.Types.{Time, hour}
use aep_go.Service.Types.{created, replayed, conflict, IdempotencyResult}
use aep_go.Service.Types.{
  replayed, grant, enroll, revoke, StoredResponse, IdempotentCommand, command_eq, IdempotencyInput,
  matches,
}
use aep_go.Service.Idempotency.{
  answered, Completed, idempotency_key, IdempotencyStore, admit, is_complete_input,
  execute_idempotent, expire, settle,
}

matches_key : (a b : IdempotencyInput) → matches a b ≡ true → idempotency_key a ≡ idempotency_key b
unfolding matches idempotency_key
matches_key a b h = ground (
  arith,
  text_eq_sound a.agent_did b.agent_did,
  text_eq_sound a.idempotency_key b.idempotency_key,
)

input_key_of_parts :
    (a b : IdempotencyInput)
    → a.agent_did ≡ b.agent_did
    → a.idempotency_key ≡ b.idempotency_key
    → idempotency_key a ≡ idempotency_key b
unfolding idempotency_key
input_key_of_parts a b s k = cc

-- Both inputs have a canonical hash and the same one; or one of them has none, and the hashes of the
-- encoded requests are the same.
abbrev pub IsSameRequest : IdempotencyInput → IdempotencyInput → Type 0
IsSameRequest a b =
    ((a.canonical_request_hash ≢ [])
      × (b.canonical_request_hash ≢ [])
      × (a.canonical_request_hash ≡ b.canonical_request_hash))
    ⊎ (((a.canonical_request_hash ≡ []) ⊎ (b.canonical_request_hash ≡ []))
        × (a.request_hash ≡ b.request_hash))

matches-IsSameRequest : (a b : IdempotencyInput) → matches a b ≡ true → IsSameRequest a b
unfolding matches
matches-IsSameRequest a b h = go a.canonical_request_hash b.canonical_request_hash refl refl
  where
    go :
        (x y : Text)
        → a.canonical_request_hash ≡ x
        → b.canonical_request_hash ≡ y
        → IsSameRequest a b
    go [] y ex ey = inr (inl ex, ground (arith, text_eq_sound a.request_hash b.request_hash))
    go (c ∷ x) [] ex ey = inr (inr ey, ground (arith, text_eq_sound a.request_hash b.request_hash))
    go (c ∷ x) (d ∷ y) ex ey = inl (
      λ e. cc,
      λ e. cc,
      ground (arith, text_eq_sound a.canonical_request_hash b.canonical_request_hash),
    )

-- What is known when a stored response is given to a caller.
pub record IsReplayOf (now : Time) (input : IdempotencyInput) (store : IdempotencyStore)
    (response : StoredResponse) : Type 0 where
  pub entry : Completed
  pub stored : store.records (idempotency_key input) ≡ some entry
  pub same_response : entry.response ≡ response
  pub fresh : now < entry.response.created_at + hour
  pub same_agent : entry.input.agent_did ≡ input.agent_did
  pub same_command : entry.input.command ≡ input.command
  pub same_key : entry.input.idempotency_key ≡ input.idempotency_key
  pub same_request : IsSameRequest entry.input input

command_eq_sound : (a b : IdempotentCommand) → command_eq a b ≡ true → a ≡ b
unfolding command_eq
command_eq_sound enroll enroll h = refl
command_eq_sound grant grant h = refl
command_eq_sound revoke revoke h = refl
command_eq_sound enroll grant h = cc
command_eq_sound enroll revoke h = cc
command_eq_sound grant enroll h = cc
command_eq_sound grant revoke h = cc
command_eq_sound revoke enroll h = cc
command_eq_sound revoke grant h = cc

-- A stored response is given only to the agent that caused it, for the same command and key, for
-- less than an hour, and for the same request: the canonical hashes are equal if both inputs have
-- one, else the hashes of the encoded requests are.
pub admit-IsReplayOf :
    (now : Time) (input : IdempotencyInput) (store : IdempotencyStore) (response : StoredResponse)
    → (admit now input store).0 ≡ answered (replayed response)
    → IsReplayOf now input store response
unfolding admit
admit-IsReplayOf now input store response e =
    elim (Option-cases (store.records (idempotency_key input))) [
      | inl absent ↦ absurd (ground arith)
      | inr (entry, stored) ↦
          let same : matches entry.input input ≡ true = ground arith in
          record {
            entry = entry;
            stored = stored;
            same_response = ground arith;
            fresh = ground arith;
            same_agent = (ground (arith, text_eq_sound entry.input.agent_did input.agent_did));
            same_command = (ground (arith, command_eq_sound entry.input.command input.command));
            same_key =
                ground (arith, text_eq_sound entry.input.idempotency_key input.idempotency_key);
            same_request = matches-IsSameRequest entry.input input same;
          }
    ]

admit_recorded :
    (now : Time) (input : IdempotencyInput) (entry : Completed) (store : IdempotencyStore)
    → is_complete_input input ≡ true
    → store.records (idempotency_key input) ≡ some entry
    → now < entry.response.created_at + hour
    → admit now input store ≡ (
      answered (if matches entry.input input then replayed entry.response else conflict),
      expire now store,
    )
unfolding admit expire
admit_recorded now input entry store whole stored live = ground arith

-- What a second call gets: the recorded response for the same request, a conflict for another.
abbrev pub retry_answer : IdempotencyInput → StoredResponse → IdempotencyInput → IdempotencyResult
retry_answer first response later = if matches first later then replayed response else conflict

execute_recorded {ℓ} :
    {W : Type ℓ} (clock : W → Time × W) (input : IdempotencyInput) (entry : Completed)
    (run : W → Outcome StoredResponse × W) (store : IdempotencyStore) (w : W)
    → is_complete_input input ≡ true
    → store.records (idempotency_key input) ≡ some entry
    → (clock w).0 < entry.response.created_at + hour
    → execute_idempotent clock input run (store, w)
      ≡ (ok (retry_answer entry.input entry.response input), expire (clock w).0 store, (clock w).1)
unfolding execute_idempotent
execute_recorded clock input entry run store w whole stored live =
    ground (arith, admit_recorded (clock w).0 input entry store whole stored live)

created_is_recorded {ℓ} :
    {W : Type ℓ} (clock : W → Time × W) (input : IdempotencyInput)
    (run : W → Outcome StoredResponse × W) (store : IdempotencyStore) (w : W)
    {response : StoredResponse}
    → (execute_idempotent clock input run (store, w)).0 ≡ ok (created response)
    → (execute_idempotent clock input run (store, w)).1.records (idempotency_key input)
      ≡ some (record { input = input; response = response })
unfolding execute_idempotent admit settle
created_is_recorded clock input run store w e = ground (arith, text_eq_refl (idempotency_key input))

-- A call of the store: its input, what it runs, and the state it starts from.
pub record StoreCall {ℓ} (W : Type ℓ) : Type ℓ where
  pub input : IdempotencyInput
  pub run : W → Outcome StoredResponse × W
  pub state : W

module _ {ℓ} {W : Type ℓ} (clock : W → Time × W) where
  -- The store after whole calls, one after another.
  abbrev pub after_all : List (StoreCall W) → IdempotencyStore → IdempotencyStore
  after_all [] store = store
  after_all (c ∷ calls) store =
      after_all calls (execute_idempotent clock c.input c.run (store, c.state)).1

  -- Whatever call is made and whatever it runs, a record stays until its hour has passed.
  execute_keeps :
      (c : StoreCall W) (k : Text) (entry : Completed) (store : IdempotencyStore)
      → store.records k ≡ some entry
      → (clock c.state).0 < entry.response.created_at + hour
      → (execute_idempotent clock c.input c.run (store, c.state)).1.records k ≡ some entry
  unfolding execute_idempotent admit expire settle
  execute_keeps c k entry store stored live =
      ground (arith, text_eq_sound (idempotency_key c.input) k)

  after_all_keeps :
      (calls : List (StoreCall W)) (k : Text) (entry : Completed) (store : IdempotencyStore)
      → store.records k ≡ some entry
      → All (λ (c : StoreCall W). (clock c.state).0 < entry.response.created_at + hour) calls
      → (after_all calls store).records k ≡ some entry
  after_all_keeps [] k entry store stored live = stored
  after_all_keeps (c ∷ calls) k entry store stored (now, later) =
      after_all_keeps calls k entry _ (execute_keeps c k entry store stored now) later

  -- Once a call has created a response, and whatever calls of any agents and keys come in between,
  -- a later call with the same agent and key runs nothing as long as the clock has shown all of
  -- these calls less than an hour after the creation: it gets the same response if it makes the
  -- same request, else a conflict, and but for the clock it changes no more than to drop what has
  -- expired.
  pub retry_runs_nothing :
      (first later : IdempotencyInput) (run run' : W → Outcome StoredResponse × W)
      (store : IdempotencyStore) (w v : W) (response : StoredResponse)
      (between : List (StoreCall W))
      → (execute_idempotent clock first run (store, w)).0 ≡ ok (created response)
      → is_complete_input later ≡ true
      → later.agent_did ≡ first.agent_did
      → later.idempotency_key ≡ first.idempotency_key
      → All (λ (c : StoreCall W). (clock c.state).0 < response.created_at + hour) between
      → (clock v).0 < response.created_at + hour
      → let store' = after_all between (execute_idempotent clock first run (store, w)).1 in
        execute_idempotent clock later run' (store', v)
        ≡ (ok (retry_answer first response later), expire (clock v).0 store', (clock v).1)
  retry_runs_nothing first later run run' store w v response between e whole same_agent same_key
        meanwhile live =
      let stored = created_is_recorded clock first run store w e in
      let same : idempotency_key later ≡ idempotency_key first =
        input_key_of_parts later first same_agent same_key in
      let kept = after_all_keeps between (idempotency_key first) _ _ stored meanwhile in
      execute_recorded clock later _ run' _ v whole (rw same kept) live
