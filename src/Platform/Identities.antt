-- ===== src/Platform/Identities.antt =====
-- platform/stores.go, the in-memory identity store. Each locked section is one function. A Go map
-- of strings answers the empty string for a missing key, and the code takes that for "absent".
pub mod Indexed
pub mod Provisioned
pub mod Updated
pub mod Unique
pub mod Refined
use aep_go.Prelude.{
  Bool, Error, Option, Outcome, Table, Text, [], blocked, delete, empty, err, error, fail_if, false,
  if◌then◌else◌, is_empty, is_empty_list, is_some, none, not, ok, put, some, text_eq, true, ◌++◌,
  ◌==◌, ◌>>=◌, ◌>>◌, ◌||◌, ◌∷◌,
}
use aep_go.Platform.Types.{IdentityRecord, ManagedAgentStatus, is_managed_agent_status}
use aep_go.Aep.Types.{Time}

pub record IdentityStore : Type 0 where
  pub by_agent_did : Table Text
  pub by_agent_did_id : Table Text
  pub by_scope : Table Text
  pub pending : Table (Unit {0})
  pub records : Table IdentityRecord

abbrev pub new_identity_store : IdentityStore
new_identity_store = record {
  by_agent_did = empty;
  by_agent_did_id = empty;
  by_scope = empty;
  pending = empty;
  records = empty;
}

-- `identityScopeKey`
unfoldable pub identity_scope_key : (principal service_did : Text) → Text
identity_scope_key principal service_did = principal ++ (0 ∷ service_did)

-- `validateIdentityRecord`
unfoldable pub validate_identity_record : IdentityRecord → Outcome (Unit {0})
unfolding is_managed_agent_status
validate_identity_record r =
    fail_if
      (is_empty r.agent_did
        || is_empty r.agent_did_id
        || is_empty r.agent_identity_id
        || r.created_at == 0
        || is_empty r.did_document_url
        || is_empty r.key_id
        || is_empty r.principal
        || is_empty r.service_did
        || is_empty_list r.signing_algorithms
        || not (is_managed_agent_status r.status)
        || r.updated_at == 0)
      (error "AEP Platform identity store received an invalid record")

-- `index[key]`, the empty string for a missing key
abbrev pub index_at : Table Text → Text → Text
index_at index k = elim (index k) [ none ↦ [] | some id ↦ id ]

abbrev zero_record : IdentityRecord
zero_record = record {
  agent_did = [];
  agent_did_id = [];
  agent_identity_id = [];
  created_at = 0;
  did_document_url = [];
  key_id = [];
  principal = [];
  service_did = [];
  signing_algorithms = [];
  status = ManagedAgentStatus.unregistered [];
  updated_at = 0;
}

-- `records[id]`, the zero value for a missing key
abbrev record_at : Table IdentityRecord → Text → IdentityRecord
record_at records id = elim (records id) [ none ↦ zero_record | some r ↦ r ]

-- What the first locked section of `FindOrCreateIdentity` decides.
pub data Provisioning : Type 0 where
  failed : Error → Provisioning
  existing : IdentityRecord → Provisioning
  wait : Provisioning
  create : Provisioning

unfoldable pub begin_provisioning :
    Option Error → (principal service_did : Text) → IdentityStore → Provisioning × IdentityStore
unfolding identity_scope_key text_eq
begin_provisioning cancelled principal service_did store =
    let key = identity_scope_key principal service_did in
    if is_empty principal || is_empty service_did
    then (
      failed (
          error
            "AEP Platform identity store requires a principal, Service DID, and create function"),
      store,
    )
    else elim cancelled [
      | some e ↦ (failed e, store)
      | none ↦ elim (index_at store.by_scope key) [
        | c ∷ id ↦ (existing (record_at store.records (c ∷ id)), store)
        | [] ↦
            if is_some (store.pending key)
            then (wait, store)
            else (create, record store { pending = put key tt store.pending })
      ]
    ]

-- The checks on what `create` returned.
unfoldable pub checked_identity :
    (principal service_did : Text) → Outcome IdentityRecord → Outcome IdentityRecord
unfolding text_eq
checked_identity principal service_did created = do
  r ← created
  validate_identity_record r
  fail_if (not (text_eq r.principal principal) || not (text_eq r.service_did service_did))
      (error "AEP Platform identity store record does not match its requested scope")
  ok r

abbrev pub is_duplicate : IdentityStore → IdentityRecord → Bool
is_duplicate store r =
    is_some (store.records r.agent_identity_id)
    || not (is_empty (index_at store.by_agent_did r.agent_did))
    || not (is_empty (index_at store.by_agent_did_id r.agent_did_id))

-- The locked section after `create` has returned.
unfoldable pub finish_provisioning :
    (key : Text) → Outcome IdentityRecord → IdentityStore → Outcome IdentityRecord × IdentityStore
unfolding text_eq
finish_provisioning key (err e) store = (err e, record store { pending = delete key store.pending })
finish_provisioning key (ok r) store =
    if is_duplicate store r
    then (
      err (error "AEP Platform identity store received duplicate identity material"),
      record store { pending = delete key store.pending },
    )
    else (
      ok r,
      record {
        by_agent_did = put r.agent_did r.agent_identity_id store.by_agent_did;
        by_agent_did_id = put r.agent_did_id r.agent_identity_id store.by_agent_did_id;
        by_scope = put key r.agent_identity_id store.by_scope;
        pending = delete key store.pending;
        records = put r.agent_identity_id r store.records;
      },
    )

-- A whole call that no other caller interrupts. The Boolean tells whether the record is new.
unfoldable pub find_or_create_identity {ℓ} :
    {W : Type ℓ}
    → Option Error
    → (principal service_did : Text) → (W → Outcome IdentityRecord × W)
    → IdentityStore × W
    → Outcome (IdentityRecord × Bool) × IdentityStore × W
find_or_create_identity cancelled principal service_did make (store, w) =
    let (decision, store') = begin_provisioning cancelled principal service_did store in
    elim decision [
      | failed e ↦ (err e, store', w)
      | existing r ↦ (ok (r, false), store', w)
      | wait ↦ (err blocked, store', w)
      | create ↦
          let (created, w') = make w in
          let (result, store'') =
            finish_provisioning (identity_scope_key principal service_did)
              (checked_identity principal service_did created) store' in
          (result >>= λ r. ok (r, true), store'', w')
    ]

-- `find`, of `FindIdentityByAgentDID` and `FindIdentityByAgentDIDID`
unfoldable pub find_identity :
    Option Error → Table Text → (key : Text) → IdentityStore → Outcome (Option IdentityRecord)
find_identity (some cancelled) index key store = err cancelled
find_identity none index key store = ok (store.records (index_at index key))

-- `GetIdentity`
unfoldable pub get_identity : Option Error → Text → IdentityStore → Outcome (Option IdentityRecord)
get_identity (some cancelled) id store = err cancelled
get_identity none id store = ok (store.records id)

-- `UpdateIdentity`
unfoldable pub update_identity :
    Option Error
    → Text
    → ManagedAgentStatus
    → Time
    → IdentityStore
    → Outcome (Option IdentityRecord) × IdentityStore
unfolding is_managed_agent_status text_eq
update_identity (some cancelled) id new_status updated_at store = (err cancelled, store)
update_identity none id new_status updated_at store =
    if not (is_managed_agent_status new_status) || updated_at == 0
    then (err (error "AEP Platform identity update is invalid"), store)
    else elim (store.records id) [
      | none ↦ (ok none, store)
      | some r ↦
          let updated = record r { status = new_status; updated_at = updated_at } in
          (ok (some updated), record store { records = put id updated store.records })
    ]
