-- ===== src/Platform/Identities/Refined.antt =====
-- The identity store, with its five tables, implements one table from scopes to records.
use aep_go.Prelude.{
  Bool, Bool-cases, Error, Option, Option-cases, Outcome, Table, Text, [], arith, blocked, delete,
  err, false, inl, inr, none, ok, put, refl, some, subst, sym, text_eq, text_eq_refl, text_eq_sound,
  true, ◌>>=◌, ◌≡◌, ◌⊎◌,
}
use aep_go.Platform.Identities.Provisioned.{begin_create}
use aep_go.Platform.Identities.{
  Provisioning, failed, existing, wait, create, find_or_create_identity, checked_identity,
}
use aep_go.Platform.Identities.{
  is_duplicate, finish_provisioning, IdentityStore, identity_scope_key, index_at,
  begin_provisioning,
}
use aep_go.Platform.Construction.{new}
use aep_go.Platform.Identities.Indexed.{IsIndexed, scope_of, index-absent, pending-IsIndexed}
use aep_go.Platform.Types.{IdentityRecord}
use aep_go.Platform.Identities.Provisioned.{begin_other}

-- The record that a scope has.
unfoldable pub hosted_at : IdentityStore → Table IdentityRecord
hosted_at store k = elim (store.by_scope k) [ none ↦ none | some id ↦ store.records id ]

-- The calls of a table that holds one record for each key, as `FindOrCreate` is meant: a failure
-- changes nothing, a record that is found is the one of the key, and a record that is created was
-- missing and is the only change.
pub data FindsOrCreates (key : Text) (before : Table IdentityRecord)
    : Outcome (IdentityRecord × Bool) → Table IdentityRecord → Type 0 where
  fails :
      (e : Error) (after : Table IdentityRecord)
      → ((k : Text) → after k ≡ before k)
      → FindsOrCreates key before (err e) after
  finds :
      (r : IdentityRecord) (after : Table IdentityRecord)
      → before key ≡ some r
      → ((k : Text) → after k ≡ before k)
      → FindsOrCreates key before (ok (r, false)) after
  creates :
      (r : IdentityRecord) (after : Table IdentityRecord)
      → before key ≡ none
      → ((k : Text) → after k ≡ put key r before k)
      → FindsOrCreates key before (ok (r, true)) after

added_at :
    (store : IdentityStore) (key : Text) (r : IdentityRecord) (k : Text)
    → IsIndexed store
    → is_duplicate store r ≡ false
    → hosted_at (finish_provisioning key (ok r) store).1 k ≡ put key r (hosted_at store) k
unfolding hosted_at finish_provisioning
added_at store key r k h new = elim (Bool-cases (text_eq key k)) [
  | inl same ↦ ground (arith, text_eq_refl r.agent_identity_id)
  | inr other ↦ elim (Option-cases (store.by_scope k)) [
    | inl unscoped ↦ ground arith
    | inr (i, scoped) ↦
        let (x, stored, at) = h.scope_leads k i scoped in
        let apart : text_eq r.agent_identity_id i ≡ false =
          ground (arith, text_eq_sound r.agent_identity_id i) in
        ground arith
  ]
]

decision-cases :
    (d : Provisioning)
    → ((e : Error) × (d ≡ failed e))
      ⊎ (((r : IdentityRecord) × (d ≡ existing r)) ⊎ ((d ≡ wait) ⊎ (d ≡ create)))
decision-cases (failed e) = inl (e, refl)
decision-cases (existing r) = inr (inl (r, refl))
decision-cases wait = inr (inr (inl refl))
decision-cases create = inr (inr (inr refl))

-- What a decision of `begin_provisioning` says of the scope.
begin_existing :
    (cancelled : Option Error) (principal service_did : Text) (store : IdentityStore)
    (r : IdentityRecord)
    → IsIndexed store
    → (begin_provisioning cancelled principal service_did store).0 ≡ existing r
    → hosted_at store (identity_scope_key principal service_did) ≡ some r
unfolding hosted_at begin_provisioning
begin_existing cancelled principal service_did store r h e =
    elim (Option-cases (store.by_scope (identity_scope_key principal service_did))) [
      | inl unscoped ↦ absurd (ground arith)
      | inr (i, scoped) ↦
          let (x, stored, at) = h.scope_leads (identity_scope_key principal service_did) i scoped in
          ground arith
    ]

hosted_at_free :
    (store : IdentityStore) (key : Text)
    → IsIndexed store
    → index_at store.by_scope key ≡ []
    → hosted_at store key ≡ none
unfolding hosted_at
hosted_at_free store key h free =
    let unscoped = index-absent store.by_scope scope_of store key h h.scope_leads free in
    ground arith

-- What a call shows of the tables.
abbrev Shows : Text → IdentityStore → Outcome (IdentityRecord × Bool) × IdentityStore → Type 0
Shows key before q = FindsOrCreates key (hosted_at before) q.0 (hosted_at q.1)

abbrev as_new :
    Outcome IdentityRecord × IdentityStore → Outcome (IdentityRecord × Bool) × IdentityStore
as_new (result, after) = (result >>= λ r. ok (r, true), after)

pending_fails :
    (store : IdentityStore) (key : Text) (pending : Table (Unit {0})) (e : Error)
    → Shows key store (err e, record store { pending = pending })
unfolding hosted_at
pending_fails store key pending e = fails e _ (λ k. refl)

finish-Shows :
    (store : IdentityStore) (key : Text) (created : Outcome IdentityRecord)
    → IsIndexed store
    → index_at store.by_scope key ≡ []
    → Shows key store (as_new (finish_provisioning key created store))
unfolding finish_provisioning
finish-Shows store key (err e) h free = pending_fails store key (delete key store.pending) e
finish-Shows store key (ok r) h free = elim (Bool-cases (is_duplicate store r)) [
  | inl duplicate ↦ rw duplicate (pending_fails store key (delete key store.pending) _)
  | inr new ↦
      let shown : as_new (finish_provisioning key (ok r) store)
          ≡ (ok (r, true), (finish_provisioning key (ok r) store).1) =
        rw new refl in
      subst (Shows key store) (sym shown)
        (creates r _ (hosted_at_free store key h free) (λ k. added_at store key r k h new))
]

module _ {ℓ} {W : Type ℓ} (cancelled : Option Error) (principal service_did : Text)
    (make : W → Outcome IdentityRecord × W) (store : IdentityStore) (w : W) where
  abbrev decision : Provisioning
  decision = (begin_provisioning cancelled principal service_did store).0

  abbrev key : Text
  key = identity_scope_key principal service_did

  abbrev call : Outcome (IdentityRecord × Bool) × IdentityStore
  call =
      let (result, after, w') =
        find_or_create_identity cancelled principal service_did make (store, w) in
      (result, after)

  -- From a store whose indexes agree with its records, an uninterrupted call does to the table of
  -- scopes what it is meant to: an error changes no scope, a record that is found is the one that
  -- the scope had, and a record that is created is put at its scope, which had none, and changes
  -- no other scope.
  pub find_or_create_identity-FindsOrCreates :
      IsIndexed store → FindsOrCreates key (hosted_at store) call.0 (hosted_at call.1)
  unfolding find_or_create_identity hosted_at
  find_or_create_identity-FindsOrCreates h = elim (decision-cases decision) [
    | inl (e, stopped) ↦
        let other = begin_other cancelled principal service_did store (λ p. cc (stopped, p)) in
        let step : call ≡ (err e, store) = ground (arith, other) in
        subst (Shows key store) (sym step) (pending_fails store key store.pending e)
    | inr (inl (r, found)) ↦
        let other = begin_other cancelled principal service_did store (λ p. cc (found, p)) in
        let step : call ≡ (ok (r, false), store) = ground (arith, other) in
        subst (Shows key store) (sym step)
          (finds r _ (begin_existing cancelled principal service_did store r h found) (λ k. refl))
    | inr (inr (inl waiting)) ↦
        let other = begin_other cancelled principal service_did store (λ p. cc (waiting, p)) in
        let step : call ≡ (err blocked, store) = ground (arith, other) in
        subst (Shows key store) (sym step) (pending_fails store key store.pending blocked)
    | inr (inr (inr creating)) ↦
        let (free, begun) = begin_create cancelled principal service_did store creating in
        let begun_store : IdentityStore = record store { pending = put key tt store.pending } in
        let created = checked_identity principal service_did (make w).0 in
        let step : call ≡ as_new (finish_provisioning key created begun_store) =
          rw (find_or_create_identity, creating, begun) refl in
        subst (Shows key store) (sym step) (
          finish-Shows begun_store key created (pending-IsIndexed store begun_store.pending h) free)
  ]
