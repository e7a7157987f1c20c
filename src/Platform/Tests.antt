-- ===== src/Platform/Tests.antt =====
-- Runs of the identity store on concrete values.
use aep_go.Prelude.{[], bytes, inl, none, ok, refl, some, text_eq, ◌↔◌, ◌∷◌, ◌≡◌}
use aep_go.Platform.Identities.Unique.{
  Reach, start, provisioned, find_identity_iff, identity_unique,
}
use aep_go.Platform.Types.{IdentityRecord, ManagedAgentStatus}
use aep_go.Platform.Identities.{
  identity_scope_key, find_or_create_identity, finish_provisioning, find_identity,
  new_identity_store, checked_identity, validate_identity_record, begin_provisioning, IdentityStore,
}

abbrev hosted : IdentityRecord
hosted = record {
  agent_did = bytes "did:web:a";
  agent_did_id = bytes "a";
  agent_identity_id = bytes "i";
  created_at = 1;
  did_document_url = bytes "https://a";
  key_id = bytes "k";
  principal = bytes "p";
  service_did = bytes "did:web:s";
  signing_algorithms = bytes "EdDSA" ∷ [];
  status = ManagedAgentStatus.active;
  updated_at = 1;
}

abbrev hosting_store : IdentityStore
hosting_store =
    (find_or_create_identity none (bytes "p") (bytes "did:web:s") (λ (u : Unit {0}). (ok hosted, u))
      (new_identity_store, tt)).1

hosting : Reach hosting_store
hosting = provisioned none (bytes "p") (bytes "did:web:s") (ok hosted) start

holds_hosted : hosting_store.records (bytes "i") ≡ some hosted
unfolding find_or_create_identity begin_provisioning checked_identity finish_provisioning
    identity_scope_key validate_identity_record text_eq
holds_hosted = refl

identity_unique_example : (bytes "i" ≡ bytes "i") × (hosted ≡ hosted)
identity_unique_example =
    identity_unique (bytes "i") (bytes "i") hosted hosted hosting holds_hosted holds_hosted
      (inl (refl, refl))

find_identity_iff_example :
    (find_identity none hosting_store.by_agent_did (bytes "did:web:a") hosting_store
      ≡ ok (some hosted))
    ↔ ((hosting_store.records (bytes "i") ≡ some hosted) × (bytes "did:web:a" ≡ bytes "did:web:a"))
find_identity_iff_example = find_identity_iff (bytes "did:web:a") hosted hosting
