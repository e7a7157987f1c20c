-- ===== src/Platform/Operations/Kept.antt =====
-- The indexes of the identity store through the operations of a Platform.
use aep_go.Prelude.{
  Bool-cases, Error, Option, Option-cases, Outcome, Outcome-cases, Text, arith, err, inl, inr, ok,
  refl, subst, sym, ◌≡◌, ◌⊎◌,
}
use aep_go.Prelude.Actions.{Action}
use aep_go.Aep.Responses.{IdempotencyResult, Reply, StoredResponse}
use aep_go.Platform.Idempotency.{
  Admission, execute, wait, answered, admit, is_complete_input, IdempotencyInput, IdempotencyStore,
  execute_idempotent, completion_time,
}
use aep_go.Platform.Types.{RequestContext, IdempotentOperation}
use aep_go.Aep.Codec.{Stdlib}
use aep_go.Platform.Config.{Hosting, Platform, hosting_clock}
use aep_go.Platform.Identities.{IdentityStore}
use aep_go.Aep.Types.{Time}
use aep_go.Platform.Operations.{
  storable, PlatformCodec, execute_operation, operation_input, required_context,
}
use aep_go.Platform.Results.{BodyCodec}

module _ {W Key : Type 0} (lib : Stdlib) (platform : Platform W Key)
    (P : IdentityStore → Type 0) where
  abbrev clock : Hosting W → Time × Hosting W
  clock = hosting_clock platform

  abbrev cancelled : Hosting W → Option Error
  cancelled s = platform.cancelled s.external

  completion-keeps :
      (outcome : Outcome StoredResponse) (s : Hosting W)
      → (completion_time clock cancelled outcome s).1.identities ≡ s.identities
  completion-keeps (err e) s = refl
  completion-keeps (ok response) s = ground arith

  Admission-cases :
      (a : Admission) → (a ≡ execute) ⊎ ((a ≡ wait) ⊎ ((r : IdempotencyResult) × (a ≡ answered r)))
  Admission-cases execute = inl refl
  Admission-cases wait = inr (inl refl)
  Admission-cases (answered r) = inr (inr (r, refl))

  -- The identities after a call are those before it or those after its run.
  execute_idempotent-cases :
      (input : IdempotencyInput) (run : Action (Hosting W) StoredResponse)
      (store : IdempotencyStore) (s : Hosting W)
      → let after = (execute_idempotent clock cancelled input run (store, s)).2.identities in
        (after ≡ s.identities) ⊎ (after ≡ (run (clock s).1).1.identities)
  unfolding execute_idempotent
  execute_idempotent-cases input run store s =
      let t = (clock s).1 in
      elim (Bool-cases (is_complete_input input)) [
        | inr partial ↦ inl (ground arith)
        | inl whole ↦ elim (Option-cases (platform.cancelled s.external)) [
          | inr (e, stopped) ↦ inl (ground arith)
          | inl going ↦ elim (Admission-cases (admit (clock s).0 input store).0) [
            | inr (inr (r, known)) ↦ inl (ground arith)
            | inr (inl busy) ↦ inl (ground arith)
            | inl fresh ↦ inr (ground (arith, completion-keeps (run t).0 (run t).1))
          ]
        ]
      ]

  execute_idempotent-keeps :
      (input : IdempotencyInput) (run : Action (Hosting W) StoredResponse)
      (store : IdempotencyStore) (s : Hosting W)
      → ((t : Hosting W) → P t.identities → P (run t).1.identities)
      → P s.identities
      → P (execute_idempotent clock cancelled input run (store, s)).2.identities
  execute_idempotent-keeps input run store s keeps h =
      elim (execute_idempotent-cases input run store s) [
        | inl same ↦ subst P (sym same) h
        | inr ran ↦ subst P (sym ran) (keeps (clock s).1 h)
      ]

  storable-keeps :
      {Body : Type 0} (codec : PlatformCodec) (body : BodyCodec Body)
      (run : Action (Hosting W) (Reply Body)) (s : Hosting W)
      → (storable lib platform codec body run s).1 ≡ (run s).1
  unfolding storable
  storable-keeps codec body run s = elim (Outcome-cases (run s).0) [
    | inl (e, failed) ↦ ground arith
    | inr (reply, done) ↦ ground arith
  ]

  pub execute_operation-keeps :
      {Body : Type 0} (codec : PlatformCodec) (body : BodyCodec Body)
      (operation : IdempotentOperation) (encoded : Outcome Text) (context : RequestContext)
      (run : Action (Hosting W) (Reply Body)) (store : IdempotencyStore) (s : Hosting W)
      → ((t : Hosting W) → P t.identities → P (run t).1.identities)
      → P s.identities
      → P
          (execute_operation lib platform codec body operation encoded context run
            (store, s)).1.1.identities
  unfolding execute_operation
  execute_operation-keeps codec body operation encoded context run store s keeps h =
      elim (Bool-cases (required_context context.idempotency_key context.principal)) [
        | inl missing ↦ subst P (ground arith) h
        | inr present ↦ elim (Outcome-cases encoded) [
          | inl (e, failed) ↦ subst P (ground arith) h
          | inr (text, marshalled) ↦ elim (Outcome-cases (lib.canonical text)) [
            | inl (e, failed) ↦ subst P (ground arith) h
            | inr (canonical, read) ↦ subst P (ground arith) (
                execute_idempotent-keeps
                  (operation_input lib platform context operation text canonical)
                  (storable lib platform codec body run) store s
                  (λ t k.
                    subst (λ (q : Hosting W). P q.identities)
                      (sym (storable-keeps codec body run t)) (keeps t k))
                  h)
          ]
        ]
      ]
