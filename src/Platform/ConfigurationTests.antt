-- ===== src/Platform/ConfigurationTests.antt =====
-- Runs of the construction of a Platform, of its stores and of hosted verification.
use aep_go.Prelude.{Outcome, Text, [], bytes, false, none, ok, refl, some, ℕ, ◌*◌, ◌∷◌, ◌≡◌}
use aep_go.Prelude.Int64.{pos}
use aep_go.Prelude.Actions.{Action}
use aep_go.Platform.Construction.{new}
use aep_go.Platform.Identities.{find_or_create_identity}
use aep_go.Platform.Construction.{new, Options, DiscoveryDocument, Collaborators, configured}
use aep_go.Platform.Identities.{find_or_create_identity, new_identity_store, identity_scope_key}
use aep_go.Aep.Types.{second}
use aep_go.Platform.Config.{Platform}
use aep_go.Platform.Construction.Configured.{new-IsConfigured, IsConfigured}
use aep_go.Platform.Identities.Refined.{
  find_or_create_identity-FindsOrCreates, hosted_at, FindsOrCreates,
}
use aep_go.Platform.Identities.Unique.{new-IsIndexed}
use aep_go.Platform.Sample.{toy_platform, toy_identity, platform_now, toy_parse_url}

abbrev toy_options : Options ℕ ℕ
toy_options = record {
  agent_did_id_generator = none;
  authorizer = some toy_platform.authorize;
  clock = none;
  default_lifetime = pos (60 * second);
  did_host = bytes "h";
  did_path_prefix = [];
  did_url_template = bytes "https://h/agents/{agent_did_id}/did.json";
  discovery = record {
    endpoint_base = bytes "/";
    hosted_verification_endpoint = [];
    lifecycle_endpoint = bytes "/l";
    list_endpoint = bytes "/i";
    platform_did = [];
    platform_name = bytes "P";
    provision_endpoint = bytes "/p";
    sign_endpoint = bytes "/s";
  };
  hosted_verification = false;
  identifier = none;
  key_store = some (record {
    create = toy_platform.create_key;
    method = toy_platform.did_verification_method;
    sign = toy_platform.sign_claims;
    verification = toy_platform.verification_key;
  });
  lifecycle_policy = none;
  maximum_lifetime = pos 0;
  has_replay_store = false;
  service_did_resolver = some toy_platform.resolve_service_did;
  sign_handler = none;
  signing_algorithms = bytes "EdDSA" ∷ [];
}

abbrev probe_url : Text → Outcome Text
probe_url did = ok (bytes "https://h/agents/aep-platform-did-url-probe/did.json")

abbrev toy_discovery : DiscoveryDocument
toy_discovery = record {
  hosted_verification_endpoint = [];
  lifecycle_endpoint = bytes "/l";
  list_endpoint = bytes "/i";
  provision_endpoint = bytes "/p";
  sign_endpoint = bytes "/s";
  endpoint_base = bytes "/";
  did_url_template = bytes "https://h/agents/{agent_did_id}/did.json";
  platform_did = [];
  hosted_verification = false;
  platform_name = bytes "P";
  algorithms = bytes "EdDSA" ∷ [];
  default_lifetime_seconds = bytes "60";
}

abbrev toy_id : Action ℕ Text
toy_id n = (ok (bytes "1"), n)

abbrev toy_collaborators : Collaborators ℕ ℕ
toy_collaborators = record {
  authorizer = toy_platform.authorize;
  keys = record {
    create = toy_platform.create_key;
    method = toy_platform.did_verification_method;
    sign = toy_platform.sign_claims;
    verification = toy_platform.verification_key;
  };
  resolver = toy_platform.resolve_service_did;
}

abbrev made_platform : Platform ℕ ℕ
made_platform =
    configured toy_parse_url probe_url toy_id (λ n. platform_now) (λ n. none) toy_options
      toy_collaborators (300 * second) (60 * second)

makes_platform :
    new toy_parse_url probe_url toy_id (λ n. platform_now) (λ n. none) toy_options
    ≡ ok (made_platform, toy_discovery)
unfolding new
makes_platform = refl

new-IsConfigured_example : IsConfigured made_platform toy_discovery
new-IsConfigured_example =
    new-IsConfigured toy_parse_url probe_url toy_id (λ n. platform_now) (λ n. none) toy_options
      made_platform toy_discovery makes_platform

find_or_create_identity-FindsOrCreates_example :
    FindsOrCreates
      (identity_scope_key (bytes "p") (bytes "did:web:s"))
      (hosted_at new_identity_store)
      (find_or_create_identity none
        (bytes "p")
        (bytes "did:web:s")
        (λ (n : ℕ). (ok toy_identity, n))
        (new_identity_store, 0)).0
      (hosted_at
        (find_or_create_identity none
          (bytes "p")
          (bytes "did:web:s")
          (λ (n : ℕ). (ok toy_identity, n))
          (new_identity_store, 0)).1)
find_or_create_identity-FindsOrCreates_example =
    find_or_create_identity-FindsOrCreates none (bytes "p") (bytes "did:web:s")
      (λ (n : ℕ). (ok toy_identity, n)) new_identity_store 0 new-IsIndexed
