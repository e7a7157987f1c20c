-- ===== src/Platform/Construction.antt =====
-- platform/platform.go, `New`, with the discovery document of platform/document.go. A collaborator
-- that is nil is `none`. The conversion of the clock and the caching headers of the discovery
-- document are left out.
pub mod Configured
use aep_go.Prelude.{
  Bool, Error, List, Option, Outcome, String, Text, [], all, bytes, contains, err, error, fail_if,
  false, if◌then◌else◌, is_empty, is_empty_list, ltb, none, not, ok, some, true, ℕ, ◌%◌, ◌&&◌, ◌*◌,
  ◌/◌, ◌==◌, ◌>>=◌, ◌>>◌, ◌||◌, ◌∷◌,
}
use aep_go.Prelude.Int64.{leb_ℤ, negsuc, pos, ℤ}
use aep_go.Prelude.Actions.{Action}
use aep_go.Aep.Responses.{Reply}
use aep_go.Platform.Types.{
  RequestContext, IdentityRecord, is_active_status, SignResponse, SignRequest, ManagedAgentStatus,
  AuthorizationRequest,
}
use aep_go.Aep.Assertion.{is_jose_algorithm}
use aep_go.Aep.Bytes.{has_prefix}
use aep_go.Aep.Types.{second, ClientAssertionClaims, max_assertion_lifetime, Time}
use aep_go.Platform.AgentDids.{
  ParsedUrl, render_did_url, validate_did_url_template, create_service_scoped_agent_did,
}
use aep_go.Platform.Config.{Platform, DidVerificationMethod}
use aep_go.Platform.Identifiers.{decimal}
use aep_go.Platform.Operations.Verify.{verification_key}

-- `KeyStore`
pub record KeyStore (W Key : Type 0) : Type 0 where
  pub create : IdentityRecord → Action W (Unit {0})
  pub method : IdentityRecord → Action W DidVerificationMethod
  pub sign : IdentityRecord → ClientAssertionClaims → Action W Text
  pub verification : IdentityRecord → Action W Key

-- `LifecyclePolicy`
pub record LifecyclePolicy (W : Type 0) : Type 0 where
  pub allows_signing : IdentityRecord → RequestContext → Action W Bool
  pub allows_transition : IdentityRecord → ManagedAgentStatus → RequestContext → Action W Bool
  pub allows_verification : IdentityRecord → RequestContext → Action W Bool

-- `defaultLifecyclePolicy`
unfoldable pub default_lifecycle_policy : {W : Type 0} → LifecyclePolicy W
default_lifecycle_policy = record {
  allows_signing = λ r context w. (ok (is_active_status r.status), w);
  allows_transition = λ r new_status context w. (ok true, w);
  allows_verification = λ r context w. (ok (is_active_status r.status), w);
}

pub record DiscoveryOptions : Type 0 where
  pub endpoint_base : Text
  pub hosted_verification_endpoint : Text
  pub lifecycle_endpoint : Text
  pub list_endpoint : Text
  pub platform_did : Text
  pub platform_name : Text
  pub provision_endpoint : Text
  pub sign_endpoint : Text

-- `Options`; a lifetime is an `int64` number of nanoseconds, 0 if it is not set.
pub record Options (W Key : Type 0) : Type 0 where
  pub agent_did_id_generator : Option (Action W Text)
  pub authorizer : Option (AuthorizationRequest → RequestContext → Action W Bool)
  pub clock : Option (W → Time × W)
  pub default_lifetime : ℤ
  pub did_host : Text
  pub did_path_prefix : Text
  pub did_url_template : Text
  pub discovery : DiscoveryOptions
  pub hosted_verification : Bool
  pub identifier : Option (Action W Text)
  pub key_store : Option (KeyStore W Key)
  pub lifecycle_policy : Option (LifecyclePolicy W)
  pub maximum_lifetime : ℤ
  pub has_replay_store : Bool
  pub service_did_resolver : Option (Text → Action W Bool)
  pub sign_handler :
      Option
        (IdentityRecord → SignRequest → RequestContext → Action W (Option (Reply SignResponse)))
  pub signing_algorithms : List Text

-- `DiscoveryDocument` without its constant members
pub record DiscoveryDocument : Type 0 where
  pub hosted_verification_endpoint : Text
  pub lifecycle_endpoint : Text
  pub list_endpoint : Text
  pub provision_endpoint : Text
  pub sign_endpoint : Text
  pub endpoint_base : Text
  pub did_url_template : Text
  pub platform_did : Text
  pub hosted_verification : Bool
  pub platform_name : Text
  pub algorithms : List Text
  pub default_lifetime_seconds : Text

-- `hasDuplicateAlgorithms`
unfoldable pub has_duplicate_algorithms : List Text → Bool
unfolding contains
has_duplicate_algorithms [] = false
has_duplicate_algorithms (a ∷ algorithms) =
    contains algorithms a || has_duplicate_algorithms algorithms

-- `value` if it is set, else 300 seconds
abbrev pub lifetime_or_default : ℤ → ℤ
lifetime_or_default value =
    if leb_ℤ value (pos 0) && leb_ℤ (pos 0) value
    then pos (max_assertion_lifetime * second)
    else value

-- The check of a lifetime against its maximum.
unfoldable pub checked_lifetime : (value : ℤ) (maximum : ℕ) (message : String) → Outcome ℕ
checked_lifetime (negsuc n) maximum message = err (error message)
checked_lifetime (pos n) maximum message =
    if n == 0 || ltb maximum n || not (n % second == 0) then err (error message) else ok n

-- The lifetimes of assertions, the maximum and the default.
unfoldable pub lifetimes : (maximum default : ℤ) → Outcome (ℕ × ℕ)
unfolding checked_lifetime
lifetimes maximum default = do
  most ←
      checked_lifetime (lifetime_or_default maximum) (max_assertion_lifetime * second)
        "AEP Platform maximum assertion lifetime must be a whole number of seconds from 1 through 300"
  usual ←
      checked_lifetime (lifetime_or_default default) most
        "AEP Platform default assertion lifetime must be a whole number of seconds within the configured maximum"
  ok (most, usual)

unfoldable pub check_algorithms : List Text → Outcome (Unit {0})
unfolding has_duplicate_algorithms is_jose_algorithm
check_algorithms algorithms = do
  fail_if (is_empty_list algorithms || has_duplicate_algorithms algorithms)
      (error "AEP Platform requires unique signing algorithms")
  fail_if (not (all is_jose_algorithm algorithms))
      (error "unsupported AEP Platform signing algorithm")

abbrev required {ℓ} : {A : Type ℓ} → Option A → String → Outcome A
required none message = err (error message)
required (some a) message = ok a

abbrev or_else {ℓ} : {A : Type ℓ} → Option A → A → A
or_else none a = a
or_else (some b) a = b

module _ (parse_url : Text → Option ParsedUrl) where
  -- `validateEndpointPath`
  unfoldable pub validate_endpoint_path : Text → Outcome (Unit {0})
  unfolding has_prefix
  validate_endpoint_path path =
      let failure = error "AEP Platform endpoint must be an absolute path" in
      elim (parse_url path) [
        | none ↦ err failure
        | some parsed ↦
            fail_if
              (not (has_prefix path (b'/' ∷ []))
                || not (is_empty parsed.scheme)
                || not (is_empty parsed.host)
                || parsed.has_user
                || not (is_empty parsed.raw_query)
                || not (is_empty parsed.fragment))
              failure
      ]

  unfoldable pub hosted_endpoint : (hosted : Bool) → Text → Outcome Text
  unfolding validate_endpoint_path
  hosted_endpoint true path = validate_endpoint_path path >> ok path
  hosted_endpoint false path =
      fail_if (not (is_empty path))
        (error "AEP Platform hosted verification endpoint requires hosted verification")
      >> ok []

  -- `createDiscoveryDocument`; the source checks four of the paths in no fixed order.
  unfoldable pub create_discovery_document :
      {W Key : Type 0} → Options W Key → (default_lifetime : ℕ) → Outcome DiscoveryDocument
  unfolding validate_endpoint_path hosted_endpoint has_prefix render_did_url decimal
  create_discovery_document options default_lifetime = do
    let d = options.discovery
    validate_endpoint_path d.endpoint_base
    validate_endpoint_path d.lifecycle_endpoint
    validate_endpoint_path d.list_endpoint
    validate_endpoint_path d.provision_endpoint
    validate_endpoint_path d.sign_endpoint
    hosted ← hosted_endpoint options.hosted_verification d.hosted_verification_endpoint
    fail_if (is_empty d.platform_name) (error "AEP Platform name is required")
    fail_if (not (is_empty d.platform_did) && not (has_prefix d.platform_did (bytes "did:")))
        (error "AEP Platform DID must be a DID")
    rendered ← render_did_url parse_url options.did_url_template (bytes "validation")
    ok (record {
      hosted_verification_endpoint = hosted;
      lifecycle_endpoint = d.lifecycle_endpoint;
      list_endpoint = d.list_endpoint;
      provision_endpoint = d.provision_endpoint;
      sign_endpoint = d.sign_endpoint;
      endpoint_base = d.endpoint_base;
      did_url_template = options.did_url_template;
      platform_did = d.platform_did;
      hosted_verification = options.hosted_verification;
      platform_name = d.platform_name;
      algorithms = options.signing_algorithms;
      default_lifetime_seconds = decimal (default_lifetime / second);
    })

  -- The checks of `New` that come after those for missing collaborators.
  unfoldable pub checked_options :
      {W Key : Type 0}
      → (Text → Outcome Text)
      → Options W Key
      → Outcome ((ℕ × ℕ) × DiscoveryDocument)
  unfolding create_service_scoped_agent_did check_algorithms lifetimes create_discovery_document
      validate_did_url_template
  checked_options document_url options = do
    fail_if (is_empty options.did_host || is_empty options.did_url_template)
        (error "AEP Platform DID host and URL template are required")
    probed ←
        create_service_scoped_agent_did parse_url options.did_host options.did_path_prefix
          (bytes "validation")
    check_algorithms options.signing_algorithms
    (most, usual) ← lifetimes options.maximum_lifetime options.default_lifetime
    fail_if (options.hosted_verification && not options.has_replay_store)
        (error "AEP Platform hosted verification requires a replay store")
    discovery ← create_discovery_document options usual
    validate_did_url_template parse_url document_url options.did_host options.did_path_prefix
        options.did_url_template
    ok ((most, usual), discovery)

-- The collaborators without which there is no Platform.
pub record Collaborators (W Key : Type 0) : Type 0 where
  pub authorizer : AuthorizationRequest → RequestContext → Action W Bool
  pub keys : KeyStore W Key
  pub resolver : Text → Action W Bool

unfoldable pub collaborators : {W Key : Type 0} → Options W Key → Outcome (Collaborators W Key)
collaborators options = do
  authorizer ← required options.authorizer "AEP Platform authorizer is required"
  keys ← required options.key_store "AEP Platform key store is required"
  resolver ← required options.service_did_resolver "AEP Platform Service DID resolver is required"
  ok (record { authorizer = authorizer; keys = keys; resolver = resolver })

-- `random_identifier`, `time_now` and `cancelled` are what the process supplies, and
-- `document_url` is `aep.DIDWebDocumentURL` in its text form.
module _ {W Key : Type 0} (parse_url : Text → Option ParsedUrl) (document_url : Text → Outcome Text)
    (random_identifier : Action W Text) (time_now : W → Time) (cancelled : W → Option Error) where
  unfoldable pub configured :
      Options W Key → Collaborators W Key → (most usual : ℕ) → Platform W Key
  unfolding default_lifecycle_policy
  configured options c most usual =
      let policy = or_else options.lifecycle_policy default_lifecycle_policy in
      record {
        agent_did_id_generator = or_else options.agent_did_id_generator random_identifier;
        authorize = c.authorizer;
        clock = or_else options.clock (λ w. (time_now w, w));
        default_lifetime = usual;
        did_host = options.did_host;
        did_path_prefix = options.did_path_prefix;
        did_url_template = options.did_url_template;
        hosted_verification = options.hosted_verification;
        identifier = or_else options.identifier random_identifier;
        create_key = c.keys.create;
        did_verification_method = c.keys.method;
        sign_claims = c.keys.sign;
        verification_key = c.keys.verification;
        can_sign = policy.allows_signing;
        can_transition = policy.allows_transition;
        can_verify = policy.allows_verification;
        maximum_lifetime = most;
        resolve_service_did = c.resolver;
        sign_handler = options.sign_handler;
        signing_algorithms = options.signing_algorithms;
        cancelled = cancelled;
        wall_clock = time_now;
      }

  -- `New`
  unfoldable pub new : Options W Key → Outcome (Platform W Key × DiscoveryDocument)
  unfolding collaborators checked_options configured
  new options = do
    c ← collaborators options
    ((most, usual), discovery) ← checked_options parse_url document_url options
    ok (configured options c most usual, discovery)
