-- ===== src/Service/Idempotency/Progress.antt =====
-- A caller waits only for a call of its key that is under way, and not once that call has ended.
use aep_go.Prelude.{
  List, Option-cases, Outcome, Text, [], arith, if◌then◌else◌, inl, inr, none, subst, text_cases,
  true, ◌∷◌, ◌≡◌, ◌≢◌, ◌⊎◌,
}
use aep_go.Service.Idempotency.{
  Admission, wait, answered, execute, admit, settle, expire, is_complete_input, IdempotencyStore,
  idempotency_key,
}
use aep_go.Service.Types.{IdempotencyInput, matches}
use aep_go.Aep.Responses.{StoredResponse, IdempotencyResult, replayed, conflict}
use aep_go.Aep.Types.{Time}
use aep_go.Service.Idempotency.Interleaving.{
  Removes, Absent, single_flight, settle-pending_self, System, here, there, Reach,
}

-- The caller runs its own function or has an answer.
abbrev pub GoesOn : Admission → Type 0
GoesOn admission = (admission ≡ execute) ⊎ ((r : IdempotencyResult) × (admission ≡ answered r))

admit_free :
    (now : Time) (input : IdempotencyInput) (store : IdempotencyStore)
    → is_complete_input input ≡ true
    → store.pending (idempotency_key input) ≡ none
    → GoesOn (admit now input store).0
unfolding admit expire
admit_free now input store complete free =
    elim (Option-cases ((expire now store).records (idempotency_key input))) [
      | inl missing ↦ inl (ground arith)
      | inr (existing, found) ↦ inr (
        if matches existing.input input then replayed existing.response else conflict,
        ground arith,
      )
    ]

waiting_is_held :
    (now : Time) (input : IdempotencyInput) (store : IdempotencyStore)
    → (admit now input store).0 ≡ wait
    → (is_complete_input input ≡ true) × (store.pending (idempotency_key input) ≢ none)
unfolding admit
waiting_is_held now input store waits = (ground arith, λ free. ground arith)

-- The call of a key that is under way, if there is one.
find_running :
    (k : Text) (inputs : List IdempotencyInput)
    → Absent k inputs
      ⊎ ((other : IdempotencyInput) × (rest : List IdempotencyInput) × Removes other inputs rest
          × (idempotency_key other ≡ k))
find_running k [] = inl tt
find_running k (input ∷ inputs) = elim (text_cases (idempotency_key input) k) [
  | inl same ↦ inr (input, inputs, here, same)
  | inr apart ↦ elim (find_running k inputs) [
    | inl absent ↦ inl (apart, absent)
    | inr (other, rest, removes, same) ↦ inr (other, input ∷ rest, there removes, same)
  ]
]

-- In every state that the callers' sections lead to, a caller is told to wait only while another
-- call with its key is under way; and if it comes again after that call has ended, with a response
-- or with an error, and no section of another caller comes first, it runs its own function or gets
-- an answer.
pub waiting_ends :
    {s : System} (now later ended : Time) (input : IdempotencyInput)
    (outcome : Outcome StoredResponse)
    → Reach s
    → (admit now input s.store).0 ≡ wait
    → (other : IdempotencyInput) × (rest : List IdempotencyInput) × Removes other s.running rest
      × (idempotency_key other ≡ idempotency_key input)
      × GoesOn (admit later input (settle ended other outcome s.store).1).0
waiting_ends {s} now later ended input outcome reach waits =
    let (complete, taken) = waiting_is_held now input s.store waits in
    elim (find_running (idempotency_key input) s.running) [
      | inl absent ↦ absurd (taken (((single_flight reach).1 (idempotency_key input)).1 absent))
      | inr (other, rest, removes, same) ↦ (
        other,
        rest,
        removes,
        same,
        admit_free later input (settle ended other outcome s.store).1 complete (
            subst (λ k. (settle ended other outcome s.store).1.pending k ≡ none) same
              (settle-pending_self ended other s.store outcome)),
      )
    ]
