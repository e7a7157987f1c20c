-- ===== src/Service/Replay.antt =====
-- service/stores.go, the in-memory replay store: which assertions have been used.
pub mod Safety
use aep_go.Prelude.{
  Bool, Error, List, Option, Outcome, Table, Text, [], err, error, false, if◌then◌else◌, is_empty,
  is_some, none, ok, put, retain, some, text_eq, true, ◌++◌, ◌||◌, ◌∷◌,
}
use aep_go.Prelude.Int64.{leb_ℤ, ltb_ℤ, ℤ}
use aep_go.Service.Types.{ReplayRecord}

-- `record.Subject + "\x00" + record.JWTID`
unfoldable pub replay_key : ReplayRecord → Text
replay_key record' = record'.subject ++ (0 ∷ record'.jwt_id)

abbrev pub ReplayRecords : Type 0
ReplayRecords = Table ReplayRecord

-- `ConsumeReplay`, under the lock. `cancelled` is `ctx.Err()`.
unfoldable pub consume_replay :
    Option Error → ReplayRecord → ℤ → ReplayRecords → Outcome Bool × ReplayRecords
unfolding replay_key text_eq
consume_replay (some cancelled) r now records = (err cancelled, records)
consume_replay none r now records =
    if is_empty r.subject || is_empty r.jwt_id || leb_ℤ r.expires_at now
    then (err (error "AEP replay store received an invalid record"), records)
    else let live = retain (λ (existing : ReplayRecord). ltb_ℤ now existing.expires_at) records in
      if is_some (live (replay_key r))
      then (ok false, live)
      else (ok true, put (replay_key r) r live)

-- One call of the store.
pub record ReplayCall : Type 0 where
  pub cancelled : Option Error
  pub presented : ReplayRecord
  pub now : ℤ

-- The answers to a sequence of calls, one after another under the lock.
unfoldable pub consume_all : List ReplayCall → ReplayRecords → List (Outcome Bool) × ReplayRecords
unfolding consume_replay
consume_all [] records = ([], records)
consume_all (c ∷ calls) records =
    let (answer, records') = consume_replay c.cancelled c.presented c.now records in
    let (answers, final) = consume_all calls records' in (answer ∷ answers, final)
