-- ===== src/Platform/Replay/Once.antt =====
-- The replay store of a Platform accepts a key once.
use aep_go.Prelude.{
  All, Error, List, Option, Text, [], arith, none, ok, some, text_eq_refl, text_eq_sound, true, ◌<◌,
  ◌∷◌, ◌≡◌,
}
use aep_go.Platform.Replay.{consume_replay, consume_all, ReplayStore, KeyCall}
use aep_go.Aep.Types.{Time}

keeps :
    (c : KeyCall) (k : Text) (e : Time) (records : ReplayStore)
    → records k ≡ some e
    → c.now < e
    → (consume_replay c.cancelled c.key c.expires_at c.now records).1 k ≡ some e
unfolding consume_replay
keeps c k e records h live = ground (arith, text_eq_sound c.key k)

pub accepted_key :
    (cancelled : Option Error) (k : Text) (e now : Time) (records : ReplayStore)
    → (consume_replay cancelled k e now records).0 ≡ ok true
    → (consume_replay cancelled k e now records).1 k ≡ some e
unfolding consume_replay
accepted_key (some failure) k e now records h = ground arith
accepted_key none k e now records h = ground (arith, text_eq_refl k)

pub consume_all_keeps :
    (calls : List KeyCall) (k : Text) (e : Time) (records : ReplayStore)
    → records k ≡ some e
    → All (λ c. c.now < e) calls
    → (consume_all calls records).1 k ≡ some e
unfolding consume_all
consume_all_keeps [] k e records h live = h
consume_all_keeps (c ∷ calls) k e records h (now, later) =
    consume_all_keeps calls k e _ (keeps c k e records h now) later
