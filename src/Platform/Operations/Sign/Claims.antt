-- ===== src/Platform/Operations/Sign/Claims.antt =====
-- What a Platform signs is what a Service accepts.
use aep_go.Prelude.{
  Option, Option-cases, Text, [], ap, arith, false, inl, inr, ok, refl, subst, sym, text_eq_refl,
  true, ℕ, ◌*◌, ◌+◌, ◌/◌, ◌∙◌, ◌∷◌, ◌≡◌, ◌≢◌, ◌≤◌, ◌⊎◌,
}
use aep_go.Prelude.Int64.{+ℤ_parts, IsInt64, leb_ℤ, ltb_ℤ, pos, ℤ, ◌+ℤ◌}
use aep_go.Aep.Types.{unix, max_assertion_lifetime, second, ClientAssertionClaims}
use aep_go.Platform.Identifiers.{canonical_positive_integer, is_did}
use aep_go.Platform.Identifiers.Canonical.{canonical_positive_integer_iff}
use aep_go.Platform.Requests.{
  requested_lifetime, validate_sign_request, is_assertion_operation, validate_resource,
}
use aep_go.Aep.Assertion.{
  is_authenticate, Url, is_registered_operation, validate_client_assertion_claims,
  is_protected_resource_uri, exceeds_assertion_lifetime,
}
use aep_go.Platform.Types.{SignRequest, IdentityRecord}
use aep_go.Aep.Assertion.Window.{exceeds_assertion_lifetime_exact}
use aep_go.Platform.Operations.Sign.{signed_claims}

-- Adding whole seconds to a time adds them to its Unix time.
unix_later : (now seconds : ℕ) → unix (now + seconds * second) ≡ unix now +ℤ pos seconds
unfolding ◌+ℤ◌
unix_later now seconds =
    let whole : (now + seconds * second) / second ≡ now / second + seconds = omega arith in
    ground (arith, whole)

pub requested_lifetime-bounds :
    (default_lifetime maximum_lifetime lifetime : ℕ) (text : Text)
    → requested_lifetime default_lifetime maximum_lifetime text ≡ ok lifetime
    → (lifetime ≡ default_lifetime)
      ⊎ ((seconds : ℕ) × (lifetime ≡ seconds * second)
          × (1 ≤ seconds)
          × (seconds ≤ maximum_lifetime / second)
          × (seconds ≤ max_assertion_lifetime))
unfolding requested_lifetime
requested_lifetime-bounds default_lifetime maximum_lifetime lifetime [] e = inl (ground arith)
requested_lifetime-bounds default_lifetime maximum_lifetime lifetime (c ∷ text) e =
    elim (Option-cases (canonical_positive_integer (c ∷ text))) [
      | inl unread ↦ absurd (ground arith)
      | inr (seconds, read) ↦ inr (
        seconds,
        ground arith,
        ((canonical_positive_integer_iff (c ∷ text) seconds).0 read).0,
        ground arith,
        ground arith,
      )
    ]

-- A lifetime of a whole number of seconds from 1 through 300.
abbrev pub IsLifetime : ℕ → Type 0
IsLifetime lifetime =
    (seconds : ℕ) × (lifetime ≡ seconds * second)
    × (1 ≤ seconds)
    × (seconds ≤ max_assertion_lifetime)

requested_lifetime-IsLifetime :
    (default_lifetime maximum_lifetime lifetime : ℕ) (text : Text)
    → IsLifetime default_lifetime
    → requested_lifetime default_lifetime maximum_lifetime text ≡ ok lifetime
    → IsLifetime lifetime
requested_lifetime-IsLifetime default_lifetime maximum_lifetime lifetime text d e =
    elim (requested_lifetime-bounds default_lifetime maximum_lifetime lifetime text e) [
      | inl same ↦ subst IsLifetime (sym same) d
      | inr (seconds, whole, least, most, short) ↦ (seconds, whole, least, short)
    ]

-- What the checks of a signing request establish.
pub record IsSignable (parse_url : Text → Option Url) (request : SignRequest) (lifetime : ℕ)
    : Type 0 where
  pub has_id : request.jwt_id ≢ []
  pub registered : is_registered_operation request.operation ≡ true
  pub has_service : request.service_did ≢ []
  pub resource_only_authenticate : is_authenticate request.operation ≡ false → request.resource ≡ []
  pub bounded : IsLifetime lifetime

pub validate_sign_request-IsSignable :
    (parse_url : Text → Option Url) (default_lifetime maximum_lifetime lifetime : ℕ)
    (request : SignRequest)
    → IsLifetime default_lifetime
    → validate_sign_request parse_url default_lifetime maximum_lifetime request ≡ ok lifetime
    → IsSignable parse_url request lifetime
unfolding validate_sign_request is_assertion_operation is_did validate_resource
validate_sign_request-IsSignable parse_url default_lifetime maximum_lifetime lifetime request d e =
    record {
      has_id = ground arith;
      registered = ground arith;
      has_service = ground arith;
      resource_only_authenticate = ground arith;
      bounded =
          requested_lifetime-IsLifetime default_lifetime maximum_lifetime lifetime
            request.lifetime_seconds d (ground arith);
    }

sum_not_below : (a : ℤ) (k : ℕ) → 1 ≤ k → leb_ℤ (a +ℤ pos k) a ≡ false
sum_not_below a k h = ground (arith, +ℤ_parts a (pos k))

sum_not_above : (a : ℤ) (k m : ℕ) → k ≤ m → ltb_ℤ (a +ℤ pos m) (a +ℤ pos k) ≡ false
sum_not_above a k m h = ground (arith, +ℤ_parts a (pos k), +ℤ_parts a (pos m))

claims_within_lifetime :
    (now seconds : ℕ)
    → 1 ≤ seconds
    → seconds ≤ max_assertion_lifetime
    → IsInt64 (unix now)
    → IsInt64 (unix (now + seconds * second))
    → (leb_ℤ (unix (now + seconds * second)) (unix now) ≡ false)
      × (exceeds_assertion_lifetime (unix now) (unix (now + seconds * second)) ≡ false)
claims_within_lifetime now seconds least most h g =
    let later = unix_later now seconds in
    (
      ap (λ t. leb_ℤ t (unix now)) later ∙ sum_not_below (unix now) seconds least,
      exceeds_assertion_lifetime_exact (unix now) (unix (now + seconds * second)) h g
          ∙ (ap (ltb_ℤ (unix now +ℤ pos max_assertion_lifetime)) later
              ∙ sum_not_above (unix now) seconds max_assertion_lifetime most),
    )

passes :
    (parse_url : Text → Option Url) (claims : ClientAssertionClaims)
    → claims.issuer ≢ []
    → claims.subject ≡ claims.issuer
    → claims.audience ≢ []
    → claims.jwt_id ≢ []
    → is_registered_operation claims.operation ≡ true
    → (is_authenticate claims.operation ≡ false → claims.resource ≡ [])
    → (is_authenticate claims.operation ≡ true
        → is_protected_resource_uri parse_url false claims.resource ≡ true)
    → leb_ℤ claims.expires_at claims.issued_at ≡ false
    → exceeds_assertion_lifetime claims.issued_at claims.expires_at ≡ false
    → validate_client_assertion_claims parse_url false claims ≡ []
unfolding validate_client_assertion_claims
passes parse_url claims named self audience id registered none_else resource ordered brief =
    ground (arith, text_eq_refl claims.issuer)

-- The claims that Sign hands to the key store pass the checks of the claims of an assertion that
-- every Service makes: for an identity with a DID and a request that Sign accepts, if the default
-- lifetime is a whole number of seconds from 1 through 300, the times are int64 and, for
-- authenticate, the resource is one that a Service takes.
pub signed_claims_pass :
    (parse_url : Text → Option Url) (default_lifetime maximum_lifetime lifetime now : ℕ)
    (identity : IdentityRecord) (request : SignRequest)
    → IsLifetime default_lifetime
    → identity.agent_did ≢ []
    → validate_sign_request parse_url default_lifetime maximum_lifetime request ≡ ok lifetime
    → (is_authenticate request.operation ≡ true
        → is_protected_resource_uri parse_url false request.resource ≡ true)
    → IsInt64 (unix now)
    → IsInt64 (unix (now + lifetime))
    → validate_client_assertion_claims parse_url false (signed_claims identity request lifetime now)
      ≡ []
unfolding validate_client_assertion_claims signed_claims
signed_claims_pass parse_url default_lifetime maximum_lifetime lifetime now identity request d named
      e resource h g =
    let v =
      validate_sign_request-IsSignable parse_url default_lifetime maximum_lifetime lifetime request
        d e in
    let (seconds, whole, least, most) = v.bounded in
    let (later, short) =
      claims_within_lifetime now seconds least most h
        (subst (λ l. IsInt64 (unix (now + l))) whole g) in
    let ordered : leb_ℤ (unix (now + lifetime)) (unix now) ≡ false =
      ap (λ l. leb_ℤ (unix (now + l)) (unix now)) whole ∙ later in
    let brief : exceeds_assertion_lifetime (unix now) (unix (now + lifetime)) ≡ false =
      ap (λ l. exceeds_assertion_lifetime (unix now) (unix (now + l))) whole ∙ short in
    passes parse_url (signed_claims identity request lifetime now) named refl v.has_service v.has_id
      v.registered v.resource_only_authenticate resource ordered brief
