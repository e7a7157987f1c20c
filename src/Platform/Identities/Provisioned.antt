-- ===== src/Platform/Identities/Provisioned.antt =====
-- `FindOrCreateIdentity` and the indexes.
use aep_go.Prelude.{
  Bool-cases, Error, Option, Outcome, Outcome-cases, Text, [], ap, arith, delete, err, false, inl,
  inr, ok, put, refl, subst, sym, text_eq, text_eq_sound, true, ◌∙◌, ◌≡◌, ◌≢◌, ◌⊎◌,
}
use aep_go.Platform.Identities.{Provisioning, failed, existing, wait, create, is_duplicate}
use aep_go.Platform.Identities.{
  identity_scope_key, validate_identity_record, IdentityStore, finish_provisioning, index_at,
  checked_identity, find_or_create_identity, begin_provisioning,
}
use aep_go.Platform.Types.{IdentityRecord}
use aep_go.Platform.Identities.Indexed.{
  IsIndexed, pending-IsIndexed, index-absent, added-IsIndexed, scope_of, added,
}

pub checked_identity_fits :
    (principal service_did : Text) (created : Outcome IdentityRecord) (r : IdentityRecord)
    → checked_identity principal service_did created ≡ ok r
    → (validate_identity_record r ≡ ok tt)
      × (r.principal ≡ principal)
      × (r.service_did ≡ service_did)
unfolding checked_identity
checked_identity_fits principal service_did (err e) r h = cc
checked_identity_fits principal service_did (ok c) r h =
    elim (Outcome-cases (validate_identity_record c)) [
      | inl (failure, invalid) ↦ absurd (ground arith)
      | inr (unit, valid) ↦
          let same : c ≡ r = ground arith in
          let at_principal : text_eq c.principal principal ≡ true = ground arith in
          let at_service : text_eq c.service_did service_did ≡ true = ground arith in
          subst
            (λ (y : IdentityRecord).
              (validate_identity_record y ≡ ok tt)
              × (y.principal ≡ principal)
              × (y.service_did ≡ service_did))
            same
            (
              valid,
              text_eq_sound c.principal principal at_principal,
              text_eq_sound c.service_did service_did at_service,
            )
    ]

finish_duplicate :
    (store : IdentityStore) (key : Text) (r : IdentityRecord)
    → is_duplicate store r ≡ true
    → (finish_provisioning key (ok r) store).1 ≡ record store { pending = delete key store.pending }
unfolding finish_provisioning
finish_duplicate store key r e = rw e refl

finish_new :
    (store : IdentityStore) (r : IdentityRecord)
    → is_duplicate store r ≡ false
    → (finish_provisioning (scope_of r) (ok r) store).1
      ≡ added store r (delete (scope_of r) store.pending)
unfolding finish_provisioning
finish_new store r e = rw e refl

finish_ok-IsIndexed :
    (store : IdentityStore) (r : IdentityRecord)
    → IsIndexed store
    → validate_identity_record r ≡ ok tt
    → index_at store.by_scope (scope_of r) ≡ []
    → IsIndexed (finish_provisioning (scope_of r) (ok r) store).1
finish_ok-IsIndexed store r h valid free = elim (Bool-cases (is_duplicate store r)) [
  | inl duplicate ↦
      subst IsIndexed (sym (finish_duplicate store (scope_of r) r duplicate))
        (pending-IsIndexed store (delete (scope_of r) store.pending) h)
  | inr fresh ↦
      let did : index_at store.by_agent_did r.agent_did ≡ [] = ground arith in
      let did_id : index_at store.by_agent_did_id r.agent_did_id ≡ [] = ground arith in
      subst IsIndexed (sym (finish_new store r fresh)) (
        added-IsIndexed store r (delete (scope_of r) store.pending) h (record {
          valid = valid;
          new_id = ground arith;
          new_did =
              index-absent store.by_agent_did (λ y. y.agent_did) store r.agent_did h h.did_leads
                did;
          new_did_id =
              index-absent store.by_agent_did_id (λ y. y.agent_did_id) store r.agent_did_id h
                h.did_id_leads did_id;
          new_scope = index-absent store.by_scope scope_of store (scope_of r) h h.scope_leads free;
        }))
]

finish_err-pending :
    (store : IdentityStore) (key : Text) (e : Error)
    → (finish_provisioning key (err e) store).1
      ≡ record store { pending = delete key store.pending }
unfolding finish_provisioning
finish_err-pending store key e = refl

finish_provisioning-IsIndexed :
    (store : IdentityStore) (principal service_did : Text) (created : Outcome IdentityRecord)
    → IsIndexed store
    → index_at store.by_scope (identity_scope_key principal service_did) ≡ []
    → IsIndexed
        (finish_provisioning
          (identity_scope_key principal service_did)
          (checked_identity principal service_did created)
          store).1
finish_provisioning-IsIndexed store principal service_did created h free =
    elim (Outcome-cases (checked_identity principal service_did created)) [
      | inl (failure, refused) ↦ rw refused (
          subst IsIndexed
            (sym (finish_err-pending store (identity_scope_key principal service_did) failure))
            (pending-IsIndexed store _ h))
      | inr (r, checked) ↦
          let (valid, p, s) = checked_identity_fits principal service_did created r checked in
          let scope : scope_of r ≡ identity_scope_key principal service_did =
            ap (λ a. identity_scope_key a r.service_did) p
            ∙ ap (λ b. identity_scope_key principal b) s in
          rw checked (
            subst (λ k. IsIndexed (finish_provisioning k (ok r) store).1) scope
              (finish_ok-IsIndexed store r h valid (ap (index_at store.by_scope) scope ∙ free)))
    ]

pub Provisioning-cases : (d : Provisioning) → (d ≡ create) ⊎ (d ≢ create)
Provisioning-cases (failed e) = inr (λ p. cc p)
Provisioning-cases (existing r) = inr (λ p. cc p)
Provisioning-cases wait = inr (λ p. cc p)
Provisioning-cases create = inl refl

module _ (cancelled : Option Error) (principal service_did : Text) (store : IdentityStore) where
  pub begin_create :
      (begin_provisioning cancelled principal service_did store).0 ≡ create
      → (index_at store.by_scope (identity_scope_key principal service_did) ≡ [])
        × ((begin_provisioning cancelled principal service_did store).1 ≡ record store {
          pending = put (identity_scope_key principal service_did) tt store.pending;
        })
  unfolding begin_provisioning
  begin_create e = (ground arith, ground arith)

  pub begin_other :
      (begin_provisioning cancelled principal service_did store).0 ≢ create
      → (begin_provisioning cancelled principal service_did store).1 ≡ store
  unfolding begin_provisioning
  begin_other ne = ground arith

  module _ {ℓ} {W : Type ℓ} (make : W → Outcome IdentityRecord × W) (w : W) where
    provision_create :
        (begin_provisioning cancelled principal service_did store).0 ≡ create
        → (find_or_create_identity cancelled principal service_did make (store, w)).1
          ≡ (finish_provisioning
              (identity_scope_key principal service_did)
              (checked_identity principal service_did (make w).0)
              (begin_provisioning cancelled principal service_did store).1).1
    unfolding find_or_create_identity
    provision_create e = rw (find_or_create_identity, e) refl

    provision_other :
        (begin_provisioning cancelled principal service_did store).0 ≢ create
        → (find_or_create_identity cancelled principal service_did make (store, w)).1
          ≡ (begin_provisioning cancelled principal service_did store).1
    unfolding find_or_create_identity
    provision_other ne = ground arith

-- Whatever the create function returns, `FindOrCreateIdentity` keeps the indexes in agreement with
-- the records: each record stands under its own identifier, is valid, and is what the indexes of
-- its DID, its DID identifier and its scope lead to, and an index leads to nothing else.
pub find_or_create_identity-IsIndexed {ℓ} :
    {W : Type ℓ} (cancelled : Option Error) (principal service_did : Text)
    (make : W → Outcome IdentityRecord × W) (store : IdentityStore) (w : W)
    → IsIndexed store
    → IsIndexed (find_or_create_identity cancelled principal service_did make (store, w)).1
find_or_create_identity-IsIndexed cancelled principal service_did make store w h =
    elim (Provisioning-cases (begin_provisioning cancelled principal service_did store).0) [
      | inl creates ↦
          let (free, begun) = begin_create cancelled principal service_did store creates in
          subst IsIndexed
            (sym (provision_create cancelled principal service_did store make w creates))
            (subst
              (λ (s : IdentityStore).
                IsIndexed
                  (finish_provisioning (identity_scope_key principal service_did)
                    (checked_identity principal service_did (make w).0) s).1)
              (sym begun)
              (finish_provisioning-IsIndexed _ principal service_did (make w).0
                (pending-IsIndexed store _ h) free))
      | inr other ↦
          subst IsIndexed
            (sym (
              provision_other cancelled principal service_did store make w other
              ∙ begin_other cancelled principal service_did store other))
            h
    ]
