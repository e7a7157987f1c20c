-- ===== src/Service/Replay/Safety.antt =====
-- What the replay store guarantees over any sequence of calls.
use aep_go.Prelude.{
  All, Bool, List, Option-cases, Outcome, Text, [], arith, inl, inr, none, ok, some, text_eq_refl,
  text_eq_sound, true, ◌↔◌, ◌∷◌, ◌≡◌, ◌≢◌,
}
use aep_go.Prelude.Int64.{ℤ, ◌<ℤ◌, ◌≤ℤ◌}
use aep_go.Service.Types.{ReplayRecord}
use aep_go.Service.Replay.{replay_key, ReplayRecords, consume_replay, ReplayCall, consume_all}

-- The record names a subject and a JWT ID, is unexpired, and its key is free or has expired.
abbrev pub IsFresh : ReplayRecords → ReplayRecord → ℤ → Type 0
IsFresh records r now =
    (r.subject ≢ [])
    × (r.jwt_id ≢ [])
    × (now <ℤ r.expires_at)
    × ((old : ReplayRecord) → records (replay_key r) ≡ some old → old.expires_at ≤ℤ now)

-- Without cancellation, an assertion is accepted exactly when its record is fresh.
pub consume_replay_iff :
    (r : ReplayRecord) (now : ℤ) (records : ReplayRecords)
    → ((consume_replay none r now records).0 ≡ ok true) ↔ IsFresh records r now
unfolding consume_replay
consume_replay_iff r now records = (
  λ e. (ground arith, ground arith, ground arith, λ old h. ground arith),
  λ f. elim (Option-cases (records (replay_key r))) [
    | inl unused ↦ ground arith
    | inr (old, used) ↦ ground (arith, f.3 old)
  ],
)

-- An entry stays until it expires, whatever is presented meanwhile.
consume_replay_keeps :
    (c : ReplayCall) (k : Text) (r : ReplayRecord) (records : ReplayRecords)
    → records k ≡ some r
    → c.now <ℤ r.expires_at
    → (consume_replay c.cancelled c.presented c.now records).1 k ≡ some r
unfolding consume_replay
consume_replay_keeps c k r records h live = ground (arith, text_eq_sound (replay_key c.presented) k)

pub key_of_parts :
    (p r : ReplayRecord) → p.subject ≡ r.subject → p.jwt_id ≡ r.jwt_id → replay_key p ≡ replay_key r
unfolding replay_key
key_of_parts p r s j = cc

pub consume_all_keeps :
    (calls : List ReplayCall) (r : ReplayRecord) (records : ReplayRecords)
    → records (replay_key r) ≡ some r
    → All (λ c. c.now <ℤ r.expires_at) calls
    → (consume_all calls records).1 (replay_key r) ≡ some r
unfolding consume_all
consume_all_keeps [] r records h live = h
consume_all_keeps (c ∷ calls) r records h (now, later) =
    consume_all_keeps calls r _ (consume_replay_keeps c (replay_key r) r records h now) later

-- A used assertion is not accepted again while it is live.
consume_replay_used :
    (c : ReplayCall) (r : ReplayRecord) (records : ReplayRecords)
    → records (replay_key r) ≡ some r
    → c.now <ℤ r.expires_at
    → c.presented.subject ≡ r.subject
    → c.presented.jwt_id ≡ r.jwt_id
    → (consume_replay c.cancelled c.presented c.now records).0 ≢ ok true
unfolding consume_replay
consume_replay_used c r records h live same_subject same_id =
    let same : replay_key c.presented ≡ replay_key r =
      key_of_parts c.presented r same_subject same_id in
    ground arith

-- No answer to a call that presents the assertion of `r` is an acceptance.
abbrev pub Refused : ReplayRecord → List ReplayCall → List (Outcome Bool) → Type 0
Refused r [] answers = Unit
Refused r (c ∷ calls) [] = ⊥
Refused r (c ∷ calls) (a ∷ answers) =
    (c.presented.subject ≡ r.subject → c.presented.jwt_id ≡ r.jwt_id → a ≢ ok true)
    × Refused r calls answers

consume_all-Refused :
    (calls : List ReplayCall) (r : ReplayRecord) (records : ReplayRecords)
    → records (replay_key r) ≡ some r
    → All (λ c. c.now <ℤ r.expires_at) calls
    → Refused r calls (consume_all calls records).0
unfolding consume_all
consume_all-Refused [] r records h live = tt
consume_all-Refused (c ∷ calls) r records h (now, later) = (
  consume_replay_used c r records h now,
  consume_all-Refused calls r _ (consume_replay_keeps c (replay_key r) r records h now) later,
)

pub accepted_is_recorded :
    (r : ReplayRecord) (now : ℤ) (records : ReplayRecords)
    → (consume_replay none r now records).0 ≡ ok true
    → (consume_replay none r now records).1 (replay_key r) ≡ some r
unfolding consume_replay
accepted_is_recorded r now records e = ground (arith, text_eq_refl (replay_key r))

-- After an assertion is accepted, no later call that presents the same subject and JWT ID is
-- accepted, whatever calls come between, as long as all of these calls, those in between included,
-- find the clock before the expiry of the accepted record.
pub replay-Refused :
    (r : ReplayRecord) (now : ℤ) (calls : List ReplayCall) (records : ReplayRecords)
    → (consume_replay none r now records).0 ≡ ok true
    → All (λ c. c.now <ℤ r.expires_at) calls
    → Refused r calls (consume_all calls (consume_replay none r now records).1).0
replay-Refused r now calls records e live =
    consume_all-Refused calls r _ (accepted_is_recorded r now records e) live
