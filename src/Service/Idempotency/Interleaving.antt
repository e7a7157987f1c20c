-- ===== src/Service/Idempotency/Interleaving.antt =====
-- Callers of the idempotency store whose locked sections interleave in any order.
use aep_go.Prelude.{
  List, Outcome, Text, [], arith, delete_self, err, inl, inr, none, ok, refl, some, sym, text_cases,
  text_eq_refl, text_eq_sound, ◌↔◌, ◌∙◌, ◌∷◌, ◌≡◌, ◌≢◌,
}
use aep_go.Aep.Types.{Time}
use aep_go.Service.Types.{StoredResponse, IdempotencyInput}
use aep_go.Service.Idempotency.{
  execute, idempotency_key, admit, settle, IdempotencyStore, new_idempotency_store,
}

-- The store and the calls whose `execute` is under way.
pub record System : Type 0 where
  pub store : IdempotencyStore
  pub running : List IdempotencyInput

abbrev pub start : System
start = record { store = new_idempotency_store; running = [] }

-- `rest` is `xs` without one occurrence of `x`.
pub data Removes {ℓ} {A : Type ℓ} (x : A) : List A → List A → Type ℓ where
  here : {xs : List A} → Removes x (x ∷ xs) xs
  there : {y : A} {xs rest : List A} → Removes x xs rest → Removes x (y ∷ xs) (y ∷ rest)

-- One locked section of some caller: a call is admitted to `execute`, or is answered or told to
-- wait; or an `execute` that is under way ends, with whatever outcome.
pub data Step (s : System) : System → Type 0 where
  admitted :
      (now : Time) (input : IdempotencyInput)
      → (admit now input s.store).0 ≡ execute
      → Step s (record { store = (admit now input s.store).1; running = input ∷ s.running })
  refused :
      (now : Time) (input : IdempotencyInput)
      → (admit now input s.store).0 ≢ execute
      → Step s (record s { store = (admit now input s.store).1 })
  settled :
      (now : Time) (input : IdempotencyInput) (outcome : Outcome StoredResponse)
      {rest : List IdempotencyInput}
      → Removes input s.running rest
      → Step s (record { store = (settle now input outcome s.store).1; running = rest })

pub data Reach : System → Type 0 where
  begin : Reach start
  next : {s t : System} → Reach s → Step s t → Reach t

abbrev pub Absent : Text → List IdempotencyInput → Type 0
Absent k [] = Unit
Absent k (input ∷ inputs) = (idempotency_key input ≢ k) × Absent k inputs

-- No two calls under way have the same key.
abbrev pub HasDistinctKeys : List IdempotencyInput → Type 0
HasDistinctKeys [] = Unit
HasDistinctKeys (input ∷ inputs) = Absent (idempotency_key input) inputs × HasDistinctKeys inputs

-- Every call under way holds its key, and its key has no record.
abbrev HoldsKeys : IdempotencyStore → List IdempotencyInput → Type 0
HoldsKeys store [] = Unit
HoldsKeys store (input ∷ inputs) =
    (store.pending (idempotency_key input) ≡ some tt)
    × (store.records (idempotency_key input) ≡ none)
    × HoldsKeys store inputs

-- A pending key is held by a call under way: nothing waits for a call that has ended.
abbrev HasHolder : System → Type 0
HasHolder s = (k : Text) → Absent k s.running → s.store.pending k ≡ none

record IsConsistent (s : System) : Type 0 where
  distinct : HasDistinctKeys s.running
  holding : HoldsKeys s.store s.running
  held : HasHolder s

Absent-of_free :
    (k : Text) (store : IdempotencyStore) (inputs : List IdempotencyInput)
    → store.pending k ≡ none
    → HoldsKeys store inputs
    → Absent k inputs
Absent-of_free k store [] free holding = tt
Absent-of_free k store (input ∷ inputs) free (pending, _, holding) =
    (λ e. cc, Absent-of_free k store inputs free holding)

-- What keeps the keys of the calls under way keeps their claim on them.
HoldsKeys-mono :
    (store store' : IdempotencyStore) (inputs : List IdempotencyInput)
    → ((k : Text) → store.pending k ≡ some tt → store'.pending k ≡ some tt)
    → ((k : Text) → store.records k ≡ none → store'.records k ≡ none)
    → HoldsKeys store inputs
    → HoldsKeys store' inputs
HoldsKeys-mono store store' [] p r h = tt
HoldsKeys-mono store store' (input ∷ inputs) p r (pending, free, h) =
    (p _ pending, r _ free, HoldsKeys-mono store store' inputs p r h)

-- So does what touches only a key that none of them has.
HoldsKeys-others :
    (k : Text) (store store' : IdempotencyStore) (inputs : List IdempotencyInput)
    → ((j : Text) → k ≢ j → store'.pending j ≡ store.pending j)
    → ((j : Text) → k ≢ j → store'.records j ≡ store.records j)
    → Absent k inputs
    → HoldsKeys store inputs
    → HoldsKeys store' inputs
HoldsKeys-others k store store' [] p r absent h = tt
HoldsKeys-others k store store' (input ∷ inputs) p r (other, absent) (pending, free, h) = (
  p _ (λ e. other (sym e)) ∙ pending,
  r _ (λ e. other (sym e)) ∙ free,
  HoldsKeys-others k store store' inputs p r absent h,
)

module _ {input : IdempotencyInput} where
  Removes-Absent :
      {inputs rest : List IdempotencyInput} (k : Text)
      → Removes input inputs rest
      → Absent k inputs
      → Absent k rest
  Removes-Absent k here h = h.1
  Removes-Absent k (there r) h = (h.0, Removes-Absent k r h.1)

  Absent-of_rest :
      {inputs rest : List IdempotencyInput} (k : Text)
      → Removes input inputs rest
      → idempotency_key input ≢ k
      → Absent k rest
      → Absent k inputs
  Absent-of_rest k here ne h = (ne, h)
  Absent-of_rest k (there r) ne h = (h.0, Absent-of_rest k r ne h.1)

  Removes-ne :
      {inputs rest : List IdempotencyInput} (k : Text)
      → Removes input inputs rest
      → Absent k inputs
      → idempotency_key input ≢ k
  Removes-ne k here h = h.0
  Removes-ne k (there r) h = Removes-ne k r h.1

  Removes-HasDistinctKeys :
      {inputs rest : List IdempotencyInput}
      → Removes input inputs rest
      → HasDistinctKeys inputs
      → Absent (idempotency_key input) rest × HasDistinctKeys rest
  Removes-HasDistinctKeys here h = h
  Removes-HasDistinctKeys (there r) (h, hs) =
      let (absent, distinct) = Removes-HasDistinctKeys r hs in
      ((λ e. Removes-ne _ r h (sym e), absent), (Removes-Absent _ r h, distinct))

  Removes-HoldsKeys :
      {inputs rest : List IdempotencyInput} (store : IdempotencyStore)
      → Removes input inputs rest
      → HoldsKeys store inputs
      → HoldsKeys store rest
  Removes-HoldsKeys store here (_, _, h) = h
  Removes-HoldsKeys store (there r) (p, f, h) = (p, f, Removes-HoldsKeys store r h)

module _ (now : Time) (input : IdempotencyInput) (store : IdempotencyStore) where
  admit-pending :
      (k : Text) → store.pending k ≡ some tt → (admit now input store).1.pending k ≡ some tt
  unfolding admit
  admit-pending k h = ground arith

  admit-records : (k : Text) → store.records k ≡ none → (admit now input store).1.records k ≡ none
  unfolding admit
  admit-records k h = ground arith

  admit_execute :
      (admit now input store).0 ≡ execute
      → (store.pending (idempotency_key input) ≡ none)
        × ((admit now input store).1.pending (idempotency_key input) ≡ some tt)
        × ((admit now input store).1.records (idempotency_key input) ≡ none)
  unfolding admit
  admit_execute e = ground (arith, text_eq_refl (idempotency_key input))

  admit-pending_ne :
      (k : Text)
      → store.pending k ≡ none
      → idempotency_key input ≢ k
      → (admit now input store).1.pending k ≡ none
  unfolding admit
  admit-pending_ne k h ne = ground (arith, text_eq_sound (idempotency_key input) k)

  refused-pending :
      (k : Text)
      → store.pending k ≡ none
      → (admit now input store).0 ≢ execute
      → (admit now input store).1.pending k ≡ none
  unfolding admit
  refused-pending k h ne = ground arith

  settle-pending_ne :
      (outcome : Outcome StoredResponse) (k : Text)
      → idempotency_key input ≢ k
      → (settle now input outcome store).1.pending k ≡ store.pending k
  unfolding settle
  settle-pending_ne (err e) k ne = ground (arith, text_eq_sound (idempotency_key input) k)
  settle-pending_ne (ok r) k ne = ground (arith, text_eq_sound (idempotency_key input) k)

  settle-records_ne :
      (outcome : Outcome StoredResponse) (k : Text)
      → idempotency_key input ≢ k
      → (settle now input outcome store).1.records k ≡ store.records k
  unfolding settle
  settle-records_ne (err e) k ne = refl
  settle-records_ne (ok r) k ne = ground (arith, text_eq_sound (idempotency_key input) k)

  pub settle-pending_self :
      (outcome : Outcome StoredResponse)
      → (settle now input outcome store).1.pending (idempotency_key input) ≡ none
  unfolding settle
  settle-pending_self (err e) = delete_self (idempotency_key input) store.pending
  settle-pending_self (ok r) = delete_self (idempotency_key input) store.pending

Step-IsConsistent : {s t : System} → Step s t → IsConsistent s → IsConsistent t
Step-IsConsistent {s} (admitted now input e) c =
    let (free, taken, absent) = admit_execute now input s.store e in
    record {
      distinct = (Absent-of_free _ s.store s.running free c.holding, c.distinct);
      holding = (
        taken,
        absent,
        HoldsKeys-mono s.store _ s.running (admit-pending now input s.store)
            (admit-records now input s.store) c.holding,
      );
      held = λ k h. admit-pending_ne now input s.store k (c.held k h.1) h.0;
    }
Step-IsConsistent {s} (refused now input ne) c = record {
  distinct = c.distinct;
  holding =
      HoldsKeys-mono s.store _ s.running (admit-pending now input s.store)
        (admit-records now input s.store) c.holding;
  held = λ k h. refused-pending now input s.store k (c.held k h) ne;
}
Step-IsConsistent {s} (settled now input outcome {rest} removes) c =
    let (absent, distinct) = Removes-HasDistinctKeys removes c.distinct in
    record {
      distinct = distinct;
      holding =
          HoldsKeys-others (idempotency_key input) s.store _ rest
            (settle-pending_ne now input s.store outcome)
            (settle-records_ne now input s.store outcome) absent
            (Removes-HoldsKeys s.store removes c.holding);
      held = λ k h. elim (text_cases (idempotency_key input) k) [
        | inl same ↦ rw (← same) (settle-pending_self now input s.store outcome)
        | inr other ↦
            settle-pending_ne now input s.store outcome k other
            ∙ c.held k (Absent-of_rest k removes other h)
      ];
    }

Reach-IsConsistent : {s : System} → Reach s → IsConsistent s
Reach-IsConsistent begin = record { distinct = tt; holding = tt; held = λ k h. refl }
Reach-IsConsistent (next r step) = Step-IsConsistent step (Reach-IsConsistent r)

-- However callers interleave, no two executions for one key are under way together, and a key is
-- pending exactly while an execution for it is under way, so no caller waits for one that ended.
pub single_flight :
    {s : System}
    → Reach s
    → HasDistinctKeys s.running × ((k : Text) → (s.store.pending k ≡ none) ↔ Absent k s.running)
single_flight {s} r =
    let c = Reach-IsConsistent r in
    (c.distinct, λ k. (λ free. Absent-of_free k s.store s.running free c.holding, c.held k))
