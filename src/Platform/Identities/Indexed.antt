-- ===== src/Platform/Identities/Indexed.antt =====
-- The indexes of the identity store agree with its records.
use aep_go.Prelude.{
  Bool-cases, Option-cases, Table, Text, [], ap, arith, inl, inr, none, ok, put, put_self, some,
  subst, text_eq, text_eq_refl, text_eq_sound, ◌∙◌, ◌≡◌, ◌≢◌,
}
use aep_go.Platform.Identities.{
  identity_scope_key, validate_identity_record, IdentityStore, index_at,
}
use aep_go.Platform.Types.{IdentityRecord}

abbrev pub scope_of : IdentityRecord → Text
scope_of r = identity_scope_key r.principal r.service_did

-- A record stands under its own identifier, it is valid, and each index leads back to it.
pub record IsIndexedRecord (store : IdentityStore) (id : Text) (r : IdentityRecord) : Type 0 where
  pub own_id : r.agent_identity_id ≡ id
  pub valid : validate_identity_record r ≡ ok tt
  pub at_did : store.by_agent_did r.agent_did ≡ some id
  pub at_did_id : store.by_agent_did_id r.agent_did_id ≡ some id
  pub at_scope : store.by_scope (scope_of r) ≡ some id

abbrev pub LeadsTo : Table Text → Table IdentityRecord → (IdentityRecord → Text) → Type 0
LeadsTo index records key_of =
    (k id : Text)
    → index k ≡ some id
    → (r : IdentityRecord) × (records id ≡ some r) × (key_of r ≡ k)

pub record IsIndexed (store : IdentityStore) : Type 0 where
  pub indexed :
      (id : Text) (r : IdentityRecord) → store.records id ≡ some r → IsIndexedRecord store id r
  pub did_leads : LeadsTo store.by_agent_did store.records (λ r. r.agent_did)
  pub did_id_leads : LeadsTo store.by_agent_did_id store.records (λ r. r.agent_did_id)
  pub scope_leads : LeadsTo store.by_scope store.records scope_of

pub valid-ne : (r : IdentityRecord) → validate_identity_record r ≡ ok tt → r.agent_identity_id ≢ []
unfolding validate_identity_record
valid-ne r valid e = ground arith

-- Where an index leads to records with identifiers, the empty string means that a key is missing.
pub index-absent :
    (index : Table Text) (key_of : IdentityRecord → Text) (store : IdentityStore) (k : Text)
    → IsIndexed store
    → LeadsTo index store.records key_of
    → index_at index k ≡ []
    → index k ≡ none
index-absent index key_of store k h leads e = elim (Option-cases (index k)) [
  | inl absent ↦ absent
  | inr (id, present) ↦
      let (r, stored, same) = leads k id present in
      let it = h.indexed id r stored in absurd (valid-ne r it.valid (it.own_id ∙ ground arith))
]

-- The store with one record more, and any keys pending.
abbrev pub added : IdentityStore → IdentityRecord → Table (Unit {0}) → IdentityStore
added store r pending = record {
  by_agent_did = put r.agent_did r.agent_identity_id store.by_agent_did;
  by_agent_did_id = put r.agent_did_id r.agent_identity_id store.by_agent_did_id;
  by_scope = put (scope_of r) r.agent_identity_id store.by_scope;
  pending = pending;
  records = put r.agent_identity_id r store.records;
}

pub record IsNew (store : IdentityStore) (r : IdentityRecord) : Type 0 where
  pub valid : validate_identity_record r ≡ ok tt
  pub new_id : store.records r.agent_identity_id ≡ none
  pub new_did : store.by_agent_did r.agent_did ≡ none
  pub new_did_id : store.by_agent_did_id r.agent_did_id ≡ none
  pub new_scope : store.by_scope (scope_of r) ≡ none

-- A key that an index has is not the new one, and keeps its entry.
put-keeps :
    (index : Table Text) (new k value id : Text)
    → index new ≡ none
    → index k ≡ some id
    → put new value index k ≡ some id
put-keeps index new k value id absent present = ground (arith, text_eq_sound new k)

put-LeadsTo :
    (index : Table Text) (records : Table IdentityRecord) (key_of : IdentityRecord → Text)
    (r : IdentityRecord)
    → records r.agent_identity_id ≡ none
    → LeadsTo index records key_of
    → LeadsTo (put (key_of r) r.agent_identity_id index) (put r.agent_identity_id r records) key_of
put-LeadsTo index records key_of r new leads k id e = elim (Bool-cases (text_eq (key_of r) k)) [
  | inl same ↦
      (r, ground (arith, text_eq_refl r.agent_identity_id), text_eq_sound (key_of r) k same)
  | inr other ↦
      let (x, stored, key) = leads k id (ground arith) in
      (x, ground (arith, text_eq_sound r.agent_identity_id id), key)
]

pub added-IsIndexed :
    (store : IdentityStore) (r : IdentityRecord) (pending : Table (Unit {0}))
    → IsIndexed store
    → IsNew store r
    → IsIndexed (added store r pending)
added-IsIndexed store r pending h new = record {
  indexed = λ id x e. elim (Bool-cases (text_eq r.agent_identity_id id)) [
    | inl same ↦
        let at : r.agent_identity_id ≡ id = text_eq_sound r.agent_identity_id id same in
        let it : r ≡ x = ground arith in
        subst (λ y. IsIndexedRecord (added store r pending) id y) it
          (record {
            own_id = at;
            valid = new.valid;
            at_did = put_self r.agent_did r.agent_identity_id store.by_agent_did ∙ ap some at;
            at_did_id =
                put_self r.agent_did_id r.agent_identity_id store.by_agent_did_id ∙ ap some at;
            at_scope = put_self (scope_of r) r.agent_identity_id store.by_scope ∙ ap some at;
          })
    | inr other ↦
        let it = h.indexed id x (ground arith) in
        record {
          own_id = it.own_id;
          valid = it.valid;
          at_did =
              put-keeps store.by_agent_did r.agent_did x.agent_did r.agent_identity_id id
                new.new_did it.at_did;
          at_did_id =
              put-keeps store.by_agent_did_id r.agent_did_id x.agent_did_id r.agent_identity_id id
                new.new_did_id it.at_did_id;
          at_scope =
              put-keeps store.by_scope (scope_of r) (scope_of x) r.agent_identity_id id
                new.new_scope it.at_scope;
        }
  ];
  did_leads =
      put-LeadsTo store.by_agent_did store.records (λ y. y.agent_did) r new.new_id h.did_leads;
  did_id_leads =
      put-LeadsTo store.by_agent_did_id store.records (λ y. y.agent_did_id) r new.new_id
        h.did_id_leads;
  scope_leads = put-LeadsTo store.by_scope store.records scope_of r new.new_id h.scope_leads;
}

-- The keys that are pending do not matter.
pub pending-IsIndexed :
    (store : IdentityStore) (pending : Table (Unit {0}))
    → IsIndexed store
    → IsIndexed (record store { pending = pending })
pending-IsIndexed store pending h = record {
  indexed = λ id r e.
      (let it = h.indexed id r e in
        record {
          own_id = it.own_id;
          valid = it.valid;
          at_did = it.at_did;
          at_did_id = it.at_did_id;
          at_scope = it.at_scope;
        });
  did_leads = h.did_leads;
  did_id_leads = h.did_id_leads;
  scope_leads = h.scope_leads;
}
