-- ===== src/Platform/Identities/Unique.antt =====
-- What holds of every identity store that the calls lead to.
use aep_go.Prelude.{
  Error, Option, Option-cases, Outcome, Table, Text, [], ap, arith, inl, inr, none, ok, some, sym,
  ◌↔◌, ◌∙◌, ◌≡◌, ◌⊎◌,
}
use aep_go.Aep.Types.{Time}
use aep_go.Platform.Identities.{
  identity_scope_key, find_identity, IdentityStore, update_identity, new_identity_store,
  find_or_create_identity,
}
use aep_go.Platform.Identities.Indexed.{scope_of, IsIndexed, valid-ne}
use aep_go.Platform.Identities.Updated.{update_identity-IsIndexed}
use aep_go.Platform.Types.{ManagedAgentStatus, IdentityRecord}
use aep_go.Platform.Identities.Provisioned.{find_or_create_identity-IsIndexed}

-- The stores that the calls lead to, one after another, whatever their create functions return.
pub data Reach : IdentityStore → Type 0 where
  start : Reach new_identity_store
  provisioned :
      {store : IdentityStore} (cancelled : Option Error) (principal service_did : Text)
      (created : Outcome IdentityRecord)
      → Reach store
      → Reach
          (find_or_create_identity cancelled principal service_did
            (λ (u : Unit {0}). (created, u))
            (store, tt)).1
  updated :
      {store : IdentityStore} (cancelled : Option Error) (id : Text)
      (new_status : ManagedAgentStatus) (updated_at : Time)
      → Reach store
      → Reach (update_identity cancelled id new_status updated_at store).1

pub new-IsIndexed : IsIndexed new_identity_store
new-IsIndexed = record {
  indexed = λ id r e. cc e;
  did_leads = λ k id e. cc e;
  did_id_leads = λ k id e. cc e;
  scope_leads = λ k id e. cc e;
}

Reach-IsIndexed : {store : IdentityStore} → Reach store → IsIndexed store
Reach-IsIndexed start = new-IsIndexed
Reach-IsIndexed (provisioned cancelled principal service_did created r) =
    find_or_create_identity-IsIndexed cancelled principal service_did (λ u. (created, u)) _ tt
      (Reach-IsIndexed r)
Reach-IsIndexed (updated cancelled id new_status updated_at r) =
    update_identity-IsIndexed cancelled id new_status updated_at _ (Reach-IsIndexed r)

same_entry :
    (index : Table Text) (j k a b : Text) → index j ≡ some a → index k ≡ some b → j ≡ k → a ≡ b
same_entry index j k a b at_j at_k e = cc

-- A principal has at most one identity for a Service, and no two identities share a DID or a DID
-- identifier, in every store that calls of the store lead to.
pub identity_unique :
    {store : IdentityStore} (a b : Text) (x y : IdentityRecord)
    → Reach store
    → store.records a ≡ some x
    → store.records b ≡ some y
    → ((x.principal ≡ y.principal) × (x.service_did ≡ y.service_did))
      ⊎ ((x.agent_did ≡ y.agent_did) ⊎ (x.agent_did_id ≡ y.agent_did_id))
    → (a ≡ b) × (x ≡ y)
identity_unique {store} a b x y reached at_a at_b shared =
    let h = Reach-IsIndexed reached in
    let p = h.indexed a x at_a in
    let q = h.indexed b y at_b in
    let same : a ≡ b = elim shared [
      | inl (principal, service) ↦
          same_entry store.by_scope (scope_of x) (scope_of y) a b p.at_scope q.at_scope (
            ap (λ s. identity_scope_key s x.service_did) principal
            ∙ ap (λ s. identity_scope_key y.principal s) service)
      | inr (inl did) ↦
          same_entry store.by_agent_did x.agent_did y.agent_did a b p.at_did q.at_did did
      | inr (inr did_id) ↦
          same_entry store.by_agent_did_id x.agent_did_id y.agent_did_id a b p.at_did_id q.at_did_id
            did_id
    ] in
    (same, ground arith)

module _ {store : IdentityStore} (h : IsIndexed store) (agent_did : Text) (r : IdentityRecord) where
  find_stored :
      find_identity none store.by_agent_did agent_did store ≡ ok (some r)
      → (store.records r.agent_identity_id ≡ some r) × (r.agent_did ≡ agent_did)
  unfolding find_identity
  find_stored e = elim (Option-cases (store.by_agent_did agent_did)) [
    | inl absent ↦
        let at_nil : store.records [] ≡ some r = ground arith in
        let it = h.indexed [] r at_nil in absurd (valid-ne r it.valid it.own_id)
    | inr (id, present) ↦
        let (x, stored, did) = h.did_leads agent_did id present in
        let same : x ≡ r = ground arith in
        let at : store.records id ≡ some r = ground arith in
        (
          ap store.records (h.indexed id r at).own_id ∙ at,
          ap (λ (y : IdentityRecord). y.agent_did) (sym same) ∙ did,
        )
  ]

  stored_find :
      (store.records r.agent_identity_id ≡ some r) × (r.agent_did ≡ agent_did)
      → find_identity none store.by_agent_did agent_did store ≡ ok (some r)
  unfolding find_identity
  stored_find (stored, did) =
      let it = h.indexed r.agent_identity_id r stored in
      let at : store.by_agent_did agent_did ≡ some r.agent_identity_id =
        ap store.by_agent_did (sym did) ∙ it.at_did in
      ground arith

-- In every store that calls lead to, `FindIdentityByAgentDID` finds a record exactly when the store
-- has it and it has that DID.
pub find_identity_iff :
    {store : IdentityStore} (agent_did : Text) (r : IdentityRecord)
    → Reach store
    → (find_identity none store.by_agent_did agent_did store ≡ ok (some r))
      ↔ ((store.records r.agent_identity_id ≡ some r) × (r.agent_did ≡ agent_did))
find_identity_iff {store} agent_did r reached =
    let h = Reach-IsIndexed reached in (find_stored h agent_did r, stored_find h agent_did r)
