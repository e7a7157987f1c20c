-- ===== src/Platform/Replay.antt =====
-- platform/stores.go, the in-memory replay store of a Platform: the keys of verified assertions.
pub mod Once
use aep_go.Prelude.{
  Bool, Error, List, Option, Outcome, Table, Text, [], err, error, false, if◌then◌else◌, is_empty,
  is_some, leb, ltb, none, ok, put, retain, some, text_eq, true, ◌==◌, ◌||◌, ◌∷◌,
}
use aep_go.Aep.Types.{Time}

-- `memoryReplayStore`: when each key expires.
abbrev pub ReplayStore : Type 0
ReplayStore = Table Time

-- `ConsumeReplay`, under the lock. `cancelled` is `ctx.Err()`, `now` is `time.Now()`.
unfoldable pub consume_replay :
    Option Error → Text → Time → Time → ReplayStore → Outcome Bool × ReplayStore
unfolding text_eq
consume_replay (some cancelled) key expires_at now records = (err cancelled, records)
consume_replay none key expires_at now records =
    if is_empty key || expires_at == 0
    then (err (error "AEP Platform replay store received invalid input"), records)
    else if leb expires_at now
    then (ok false, records)
    else let live = retain (ltb now) records in
      if is_some (live key) then (ok false, live) else (ok true, put key expires_at live)

-- One call of the store.
pub record KeyCall : Type 0 where
  pub cancelled : Option Error
  pub key : Text
  pub expires_at : Time
  pub now : Time

-- The answers to a sequence of calls, one after another under the lock.
unfoldable pub consume_all : List KeyCall → ReplayStore → List (Outcome Bool) × ReplayStore
unfolding consume_replay
consume_all [] records = ([], records)
consume_all (c ∷ calls) records =
    let (answer, records') = consume_replay c.cancelled c.key c.expires_at c.now records in
    let (answers, final) = consume_all calls records' in (answer ∷ answers, final)
