-- ===== src/Platform/Construction/Configured.antt =====
-- What the checks of a Platform establish.
use aep_go.Prelude.{
  Error, List, Option, Outcome, String, Text, all, ap, arith, bind-ok, bytes, check-ok, error,
  fail_if, false, is_empty, not, ok, ok_injective, some, subst, true, ℕ, ◌&&◌, ◌*◌, ◌/◌, ◌||◌, ◌∙◌,
  ◌≡◌, ◌≤◌,
}
use aep_go.Prelude.Int64.{negsuc, pos, ℤ}
use aep_go.Platform.Construction.{
  new, checked_lifetime, Options, has_duplicate_algorithms, DiscoveryDocument, lifetime_or_default,
  create_discovery_document, check_algorithms, lifetimes, configured, collaborators,
  checked_options, Collaborators,
}
use aep_go.Prelude.Actions.{Action}
use aep_go.Aep.Assertion.{is_jose_algorithm}
use aep_go.Aep.Types.{second, Time, max_assertion_lifetime}
use aep_go.Platform.AgentDids.{
  ParsedUrl, create_service_scoped_agent_did, validate_did_url_template,
}
use aep_go.Platform.Config.{Platform}
use aep_go.Platform.Identifiers.{canonical_positive_integer, decimal}
use aep_go.Platform.Operations.Sign.Claims.{IsLifetime}
use aep_go.Platform.Identifiers.Canonical.{canonical_positive_integer_iff}

checked_lifetime-bounds :
    (value : ℤ) (maximum lifetime : ℕ) (message : String)
    → checked_lifetime value maximum message ≡ ok lifetime
    → (lifetime ≡ lifetime / second * second) × (1 ≤ lifetime / second) × (lifetime ≤ maximum)
unfolding checked_lifetime
checked_lifetime-bounds (negsuc n) maximum lifetime message e = absurd (ground arith)
checked_lifetime-bounds (pos n) maximum lifetime message e =
    (ground arith, ground arith, ground arith)

bounded-IsLifetime :
    (lifetime : ℕ)
    → lifetime ≡ lifetime / second * second
    → 1 ≤ lifetime / second
    → lifetime ≤ max_assertion_lifetime * second
    → IsLifetime lifetime
bounded-IsLifetime lifetime whole least most = (lifetime / second, whole, least, omega arith)

published_lifetime :
    {W Key : Type 0} (parse_url : Text → Option ParsedUrl) (options : Options W Key) (lifetime : ℕ)
    (discovery : DiscoveryDocument)
    → create_discovery_document parse_url options lifetime ≡ ok discovery
    → discovery.default_lifetime_seconds ≡ decimal (lifetime / second)
unfolding create_discovery_document
published_lifetime parse_url options lifetime discovery e = ground arith

lifetimes-IsLifetime :
    (maximum default : ℤ) (most usual : ℕ)
    → lifetimes maximum default ≡ ok (most, usual)
    → IsLifetime most × IsLifetime usual × (usual ≤ most)
unfolding lifetimes
lifetimes-IsLifetime maximum default most usual e =
    let first : checked_lifetime (lifetime_or_default maximum) (max_assertion_lifetime * second)
          "AEP Platform maximum assertion lifetime must be a whole number of seconds from 1 through 300"
        ≡ ok most =
      ground arith in
    let second_ : checked_lifetime (lifetime_or_default default) most
          "AEP Platform default assertion lifetime must be a whole number of seconds within the configured maximum"
        ≡ ok usual =
      ground arith in
    let (whole, least, bound) =
      checked_lifetime-bounds (lifetime_or_default maximum) (max_assertion_lifetime * second) most _
        first in
    let (whole', least', bound') =
      checked_lifetime-bounds (lifetime_or_default default) most usual _ second_ in
    (
      bounded-IsLifetime most whole least bound,
      bounded-IsLifetime usual whole' least' (omega arith),
      bound',
    )

check_algorithms-known :
    (algorithms : List Text)
    → check_algorithms algorithms ≡ ok tt
    → (all is_jose_algorithm algorithms ≡ true) × (has_duplicate_algorithms algorithms ≡ false)
unfolding check_algorithms
check_algorithms-known algorithms e = (ground arith, ground arith)

-- A Platform as `New` makes it.
pub record IsConfigured {W Key : Type 0} (platform : Platform W Key) (discovery : DiscoveryDocument)
    : Type 0 where
  pub default : IsLifetime platform.default_lifetime
  pub maximum : IsLifetime platform.maximum_lifetime
  pub ordered : platform.default_lifetime ≤ platform.maximum_lifetime
  pub known : all is_jose_algorithm platform.signing_algorithms ≡ true
  pub unique : has_duplicate_algorithms platform.signing_algorithms ≡ false
  pub published :
      canonical_positive_integer discovery.default_lifetime_seconds
      ≡ some (platform.default_lifetime / second)

checked_options-parts :
    {W Key : Type 0} (parse_url : Text → Option ParsedUrl) (document_url : Text → Outcome Text)
    (options : Options W Key) (most usual : ℕ) (discovery : DiscoveryDocument)
    → checked_options parse_url document_url options ≡ ok ((most, usual), discovery)
    → (check_algorithms options.signing_algorithms ≡ ok tt)
      × (lifetimes options.maximum_lifetime options.default_lifetime ≡ ok (most, usual))
      × (create_discovery_document parse_url options usual ≡ ok discovery)
unfolding checked_options
checked_options-parts parse_url document_url options most usual discovery e =
    let (named, e1) =
      check-ok
        (fail_if (is_empty options.did_host || is_empty options.did_url_template)
          (error "AEP Platform DID host and URL template are required"))
        _ e in
    let (probed, formed, e2) =
      bind-ok
        (create_service_scoped_agent_did parse_url options.did_host options.did_path_prefix
          (bytes "validation"))
        _ e1 in
    let (checked, e3) = check-ok (check_algorithms options.signing_algorithms) _ e2 in
    let ((most', usual'), lived, e4) =
      bind-ok (lifetimes options.maximum_lifetime options.default_lifetime) _ e3 in
    let (replays, e5) =
      check-ok
        (fail_if (options.hosted_verification && not options.has_replay_store)
          (error "AEP Platform hosted verification requires a replay store"))
        _ e4 in
    let (document, made, e6) = bind-ok (create_discovery_document parse_url options usual') _ e5 in
    let (consistent, e7) =
      check-ok
        (validate_did_url_template parse_url document_url options.did_host options.did_path_prefix
          options.did_url_template)
        _ e6 in
    let same = ok_injective ((most', usual'), document) ((most, usual), discovery) e7 in
    (
      checked,
      lived ∙ ap (λ q. ok q.0) same,
      subst
          (λ (q : (ℕ × ℕ) × DiscoveryDocument).
            create_discovery_document parse_url options q.0.1 ≡ ok q.1)
          same made,
    )

module _ {W Key : Type 0} (parse_url : Text → Option ParsedUrl) (document_url : Text → Outcome Text)
    (random_identifier : Action W Text) (time_now : W → Time) (cancelled : W → Option Error) where
  configured-IsConfigured :
      (options : Options W Key) (c : Collaborators W Key) (most usual : ℕ)
      (discovery : DiscoveryDocument)
      → checked_options parse_url document_url options ≡ ok ((most, usual), discovery)
      → IsConfigured
          (configured parse_url document_url random_identifier time_now cancelled options c most
            usual)
          discovery
  unfolding configured
  configured-IsConfigured options c most usual discovery e =
      let (checked, lived, made) =
        checked_options-parts parse_url document_url options most usual discovery e in
      let (known, unique) = check_algorithms-known options.signing_algorithms checked in
      let (maximum, default, ordered) =
        lifetimes-IsLifetime options.maximum_lifetime options.default_lifetime most usual lived in
      let (seconds, whole, least, bound) = default in
      record {
        default = default;
        maximum = maximum;
        ordered = ordered;
        known = known;
        unique = unique;
        published =
            (canonical_positive_integer_iff discovery.default_lifetime_seconds (usual / second)).1
              (omega arith, omega arith, published_lifetime parse_url options usual discovery made);
      }

  -- A Platform that New makes has a default and a maximum lifetime of assertions that are whole
  -- numbers of seconds from 1 through 300, the default within the maximum, and distinct signing
  -- algorithms, all of them supported; and its discovery document gives the default lifetime as
  -- a text that reads back as its seconds.
  pub new-IsConfigured :
      (options : Options W Key) (platform : Platform W Key) (discovery : DiscoveryDocument)
      → new parse_url document_url random_identifier time_now cancelled options
        ≡ ok (platform, discovery)
      → IsConfigured platform discovery
  unfolding new
  new-IsConfigured options platform discovery e =
      let (c, present, e1) = bind-ok (collaborators options) _ e in
      let (((most, usual), document), checked, e2) =
        bind-ok (checked_options parse_url document_url options) _ e1 in
      subst (λ (q : Platform W Key × DiscoveryDocument). IsConfigured q.0 q.1)
        (ok_injective
          (
            configured parse_url document_url random_identifier time_now cancelled options c most
                usual,
            document,
          )
          (platform, discovery) e2)
        (configured-IsConfigured options c most usual document checked)
