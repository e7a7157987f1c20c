-- ===== src/Platform/Identities/Updated.antt =====
-- An identity keeps its keys when its status changes.
use aep_go.Prelude.{
  Bool-cases, Error, Option, Option-cases, Table, Text, ap, arith, false, inl, inr, none, not, ok,
  put, refl, some, subst, sym, text_eq, text_eq_sound, true, ◌&&◌, ◌==◌, ◌∙◌, ◌≡◌,
}
use aep_go.Aep.Types.{Time}
use aep_go.Platform.Identities.{IdentityStore, update_identity, validate_identity_record}
use aep_go.Platform.Identities.Indexed.{scope_of, IsIndexed, LeadsTo, IsIndexedRecord}
use aep_go.Platform.Types.{ManagedAgentStatus, IdentityRecord, is_managed_agent_status}

abbrev restated : IdentityRecord → ManagedAgentStatus → Time → IdentityRecord
restated r new_status updated_at = record r { status = new_status; updated_at = updated_at }

restated-valid :
    (r : IdentityRecord) (new_status : ManagedAgentStatus) (updated_at : Time)
    → validate_identity_record r ≡ ok tt
    → is_managed_agent_status new_status ≡ true
    → (updated_at == 0) ≡ false
    → validate_identity_record (restated r new_status updated_at) ≡ ok tt
unfolding validate_identity_record
restated-valid r new_status updated_at valid managed set = ground arith

module _ (store : IdentityStore) (id : Text) (r u : IdentityRecord) (h : IsIndexed store)
    (stored : store.records id ≡ some r) (valid : validate_identity_record u ≡ ok tt) where
  replaced-LeadsTo :
      (index : Table Text) (key_of : IdentityRecord → Text)
      → key_of u ≡ key_of r
      → LeadsTo index store.records key_of
      → LeadsTo index (put id u store.records) key_of
  replaced-LeadsTo index key_of same leads k i e =
      let (x, found, key) = leads k i e in
      elim (Bool-cases (text_eq id i)) [
        | inl at ↦
            let same_id : id ≡ i = text_eq_sound id i at in
            let it : r ≡ x = ground arith in (u, ground arith, same ∙ ap key_of it ∙ key)
        | inr other ↦ (x, ground arith, key)
      ]

  replaced-IsIndexed :
      u.agent_did ≡ r.agent_did
      → u.agent_did_id ≡ r.agent_did_id
      → u.agent_identity_id ≡ r.agent_identity_id
      → scope_of u ≡ scope_of r
      → IsIndexed (record store { records = put id u store.records })
  replaced-IsIndexed did did_id own scope =
      let it = h.indexed id r stored in
      record {
        indexed = λ i x e. elim (Bool-cases (text_eq id i)) [
          | inl at ↦
              let same_id : id ≡ i = text_eq_sound id i at in
              let same : u ≡ x = ground arith in
              subst (λ y. IsIndexedRecord (record store { records = put id u store.records }) i y)
                same
                (record {
                  own_id = own ∙ it.own_id ∙ same_id;
                  valid = valid;
                  at_did = ap store.by_agent_did did ∙ it.at_did ∙ ap some same_id;
                  at_did_id = ap store.by_agent_did_id did_id ∙ it.at_did_id ∙ ap some same_id;
                  at_scope = ap store.by_scope scope ∙ it.at_scope ∙ ap some same_id;
                })
          | inr other ↦
              let old = h.indexed i x (ground arith) in
              record {
                own_id = old.own_id;
                valid = old.valid;
                at_did = old.at_did;
                at_did_id = old.at_did_id;
                at_scope = old.at_scope;
              }
        ];
        did_leads = replaced-LeadsTo store.by_agent_did (λ y. y.agent_did) did h.did_leads;
        did_id_leads =
            replaced-LeadsTo store.by_agent_did_id (λ y. y.agent_did_id) did_id h.did_id_leads;
        scope_leads = replaced-LeadsTo store.by_scope scope_of scope h.scope_leads;
      }

update_some :
    (id : Text) (new_status : ManagedAgentStatus) (updated_at : Time) (store : IdentityStore)
    (r : IdentityRecord)
    → is_managed_agent_status new_status ≡ true
    → (updated_at == 0) ≡ false
    → store.records id ≡ some r
    → (update_identity none id new_status updated_at store).1
      ≡ record store { records = put id (restated r new_status updated_at) store.records }
unfolding update_identity
update_some id new_status updated_at store r managed set stored = ground arith

update_refused :
    (id : Text) (new_status : ManagedAgentStatus) (updated_at : Time) (store : IdentityStore)
    → (is_managed_agent_status new_status && not (updated_at == 0)) ≡ false
    → (update_identity none id new_status updated_at store).1 ≡ store
unfolding update_identity
update_refused id new_status updated_at store refusal = ground arith

update_none :
    (id : Text) (new_status : ManagedAgentStatus) (updated_at : Time) (store : IdentityStore)
    → store.records id ≡ none
    → (update_identity none id new_status updated_at store).1 ≡ store
unfolding update_identity
update_none id new_status updated_at store absent = ground arith

update_cancelled :
    (e : Error) (id : Text) (new_status : ManagedAgentStatus) (updated_at : Time)
    (store : IdentityStore)
    → (update_identity (some e) id new_status updated_at store).1 ≡ store
unfolding update_identity
update_cancelled e id new_status updated_at store = refl

-- `UpdateIdentity` keeps the indexes in agreement with the records.
pub update_identity-IsIndexed :
    (cancelled : Option Error) (id : Text) (new_status : ManagedAgentStatus) (updated_at : Time)
    (store : IdentityStore)
    → IsIndexed store
    → IsIndexed (update_identity cancelled id new_status updated_at store).1
update_identity-IsIndexed (some e) id new_status updated_at store h =
    subst IsIndexed (sym (update_cancelled e id new_status updated_at store)) h
update_identity-IsIndexed none id new_status updated_at store h =
    elim (Bool-cases (is_managed_agent_status new_status && not (updated_at == 0))) [
      | inr refusal ↦
          subst IsIndexed (sym (update_refused id new_status updated_at store refusal)) h
      | inl accepted ↦ elim (Option-cases (store.records id)) [
        | inl absent ↦ subst IsIndexed (sym (update_none id new_status updated_at store absent)) h
        | inr (r, stored) ↦
            let managed : is_managed_agent_status new_status ≡ true = ground arith in
            let set : (updated_at == 0) ≡ false = ground arith in
            subst IsIndexed (sym (update_some id new_status updated_at store r managed set stored))
              (replaced-IsIndexed store id r (restated r new_status updated_at) h stored
                (restated-valid r new_status updated_at (h.indexed id r stored).valid managed set)
                refl refl refl refl)
      ]
    ]
