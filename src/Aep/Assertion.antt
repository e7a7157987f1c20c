-- ===== src/Aep/Assertion.antt =====
-- protocol.go and jwt.go: the claims of a client assertion and when they are accepted. The parsing
-- of URLs, and the parsing and signature check of tokens (go-jose), are parameters.
pub mod Window
pub mod Accepted
use aep_go.Prelude.{
  Bool, Error, List, Option, Outcome, Text, [], all, any, bytes, err, error, fail_if, false,
  if◌then◌else◌, is_empty, leb, none, not, ok, some, text_eq, true, ℕ, ◌&&◌, ◌++◌, ◌/◌, ◌==◌, ◌>>=◌,
  ◌>>◌, ◌||◌, ◌∷◌,
}
use aep_go.Prelude.Int64.{add64, leb_ℤ, ltb_ℤ, max_int64, min_int64, pos, pos_part, sub64, ℤ}
use aep_go.Aep.Types.{
  Time, unix, AssertionOperation, ClientAssertionClaims, max_assertion_lifetime, operation_eq,
}
use aep_go.Aep.Bytes.{contains_byte, cut}
use aep_go.Aep.Issues.{validation_result, issue_if, Issues, issue, require_non_empty}

-- `url.URL`, as far as the checks read it.
pub record Url : Type 0 where
  pub scheme : Text
  pub host : Text
  pub hostname : Text
  pub has_user : Bool
  pub opaque_part : Text
  pub fragment : Text

-- `isLoopbackHost`
unfoldable pub is_loopback_host : Text → Bool
unfolding text_eq
is_loopback_host hostname =
    text_eq hostname (bytes "localhost")
    || text_eq hostname (bytes "127.0.0.1")
    || text_eq hostname (bytes "::1")

-- `containsControlCharacter`, on bytes: every byte of a rune above U+007F is above 0x7f.
unfoldable pub contains_control_character : Text → Bool
contains_control_character value = any (λ c. leb c 0x1f || c == 0x7f) value

-- `math.MaxInt64 - n` is exact for a number of seconds `n`.
unfoldable pub exceeds_assertion_lifetime : ℤ → ℤ → Bool
exceeds_assertion_lifetime issued_at expires_at =
    leb_ℤ issued_at (sub64 max_int64 (pos max_assertion_lifetime))
    && ltb_ℤ (add64 issued_at (pos max_assertion_lifetime)) expires_at

abbrev pub is_registered_operation : AssertionOperation → Bool
is_registered_operation (AssertionOperation.unregistered _) = false
is_registered_operation _ = true

abbrev pub is_authenticate : AssertionOperation → Bool
is_authenticate AssertionOperation.authenticate = true
is_authenticate _ = false

module _ (parse_url : Text → Option Url) (allow_insecure_loopback : Bool) where
  -- `isProtectedResourceURI`
  unfoldable pub is_protected_resource_uri : Text → Bool
  unfolding is_loopback_host contains_control_character contains_byte text_eq
  is_protected_resource_uri value =
      if contains_byte value b'#' || contains_control_character value
      then false
      else elim (parse_url value) [
        | none ↦ false
        | some parsed ↦
            if is_empty parsed.host || parsed.has_user || not (is_empty parsed.opaque_part)
            then false
            else if text_eq parsed.scheme (bytes "https")
            then true
            else allow_insecure_loopback
              && text_eq parsed.scheme (bytes "http")
              && is_loopback_host parsed.hostname
      ]

  -- `ValidateClientAssertionClaimsWithOptions`
  unfoldable pub validate_client_assertion_claims : ClientAssertionClaims → Issues
  validate_client_assertion_claims value =
      require_non_empty value.issuer "$.iss"
      ++ (require_non_empty value.subject "$.sub"
          ++ (issue_if
                (not (is_empty value.issuer)
                  && not (is_empty value.subject)
                  && not (text_eq value.issuer value.subject))
                "$.sub" "Expected sub to equal iss."
              ++ (require_non_empty value.audience "$.aud"
                  ++ (require_non_empty value.jwt_id "$.jti"
                      ++ (issue_if (not (is_registered_operation value.operation)) "$.op"
                            "Expected a registered assertion operation."
                          ++ ((if is_authenticate value.operation
                                then issue_if (not (is_protected_resource_uri value.resource))
                                    "$.resource"
                                    "Expected an HTTPS protected-resource URI without a fragment."
                                else issue_if (not (is_empty value.resource)) "$.resource"
                                    "resource is only valid for authenticate.")
                              ++ (if leb_ℤ value.expires_at value.issued_at
                                  then issue "$.exp" "Expected exp after iat." ∷ []
                                  else issue_if
                                      (exceeds_assertion_lifetime value.issued_at value.expires_at)
                                      "$.exp"
                                      "Expected an assertion lifetime no greater than 300 seconds.")))))))

-- `nowSeconds + n`, held at `math.MaxInt64`.
unfoldable pub issued_deadline : ℤ → ℕ → ℤ
issued_deadline now tolerance =
    if leb_ℤ now (sub64 max_int64 (pos tolerance)) then add64 now (pos tolerance) else max_int64

-- `nowSeconds - n`, held at `math.MinInt64`.
unfoldable pub expiry_deadline : ℤ → ℕ → ℤ
expiry_deadline now tolerance =
    if leb_ℤ (add64 min_int64 (pos tolerance)) now then sub64 now (pos tolerance) else min_int64

-- `validateAssertionKeyID`
unfoldable pub key_id_identifies : Text → ClientAssertionClaims → Bool
unfolding cut text_eq
key_id_identifies key_id claims =
    not (is_empty key_id)
    && text_eq (cut key_id b'#').0 claims.issuer
    && text_eq (cut key_id b'#').0 claims.subject

-- A token that `josejwt.ParseSigned` has parsed.
pub record Token : Type 0 where
  pub signatures : ℕ
  pub key_id : Text
  pub token_type : Option Text

pub record VerifyOptions (Key : Type 0) : Type 0 where
  pub algorithms : List Text
  pub allow_insecure_loopback : Bool
  pub audience : Text
  pub clock_tolerance : ℤ
  pub current_time : Time
  pub issuer : Text
  pub key : Option Key
  pub key_resolver : Option (Token → Outcome (Option Key))
  pub operation : Option AssertionOperation
  pub resource : Text
  pub subject : Text

abbrev pub eddsa : Text
eddsa = bytes "EdDSA"

abbrev pub es256 : Text
es256 = bytes "ES256"

-- `joseAlgorithm`
unfoldable pub is_jose_algorithm : Text → Bool
unfolding text_eq
is_jose_algorithm algorithm = text_eq algorithm eddsa || text_eq algorithm es256

abbrev differs : Text → Text → Bool
differs expected actual = not (is_empty expected) && not (text_eq actual expected)

abbrev operation_differs : Option AssertionOperation → AssertionOperation → Bool
operation_differs none actual = false
operation_differs (some expected) actual = not (operation_eq actual expected)

-- `ClockTolerance / time.Second`
abbrev pub whole_seconds : ℕ → ℕ
whole_seconds duration = duration / 1_000_000_000

abbrev has_type_jwt : Option Text → Bool
has_type_jwt none = false
has_type_jwt (some t) = text_eq t (bytes "JWT")

abbrev pub resolved_key : {Key : Type 0} → VerifyOptions Key → Token → Outcome (Option Key)
resolved_key options token = elim options.key_resolver [
  | none ↦ ok options.key
  | some resolve ↦ resolve token
]

abbrev required {ℓ} : {A : Type ℓ} → Option A → Error → Outcome A
required none e = err e
required (some a) e = ok a

-- No algorithm configured means both.
abbrev pub algorithms_or_default : List Text → List Text
algorithms_or_default [] = eddsa ∷ es256 ∷ []
algorithms_or_default (a ∷ algorithms) = a ∷ algorithms

module _ {Key : Type 0} (parse_url : Text → Option Url)
    (parse_signed : Text → List Text → Option Token)
    (verified_claims : Text → Key → Option ClientAssertionClaims) (wall_clock : Time) where
  -- What `VerifyClientAssertion` asks of claims whose signature has been checked.
  unfoldable pub checked_claims :
      VerifyOptions Key → Text → ClientAssertionClaims → Outcome ClientAssertionClaims
  checked_claims options key_id claims = do
    validation_result
        (validate_client_assertion_claims parse_url options.allow_insecure_loopback claims)
    fail_if (not (key_id_identifies key_id claims))
        (error "AEP client assertion kid must identify the Agent DID")
    fail_if (differs options.audience claims.audience)
        (error "AEP client assertion audience does not match")
    fail_if (differs options.issuer claims.issuer)
        (error "AEP client assertion issuer does not match")
    fail_if (differs options.subject claims.subject)
        (error "AEP client assertion subject does not match")
    fail_if (operation_differs options.operation claims.operation)
        (error "AEP client assertion operation does not match")
    fail_if (differs options.resource claims.resource)
        (error "AEP client assertion resource does not match")
    fail_if (ltb_ℤ options.clock_tolerance (pos 0))
        (error "AEP client assertion clock tolerance must not be negative")
    let now = unix (if options.current_time == 0 then wall_clock else options.current_time)
    let tolerance = whole_seconds (pos_part options.clock_tolerance)
    fail_if
        (ltb_ℤ (issued_deadline now tolerance) claims.issued_at
          || leb_ℤ claims.expires_at (expiry_deadline now tolerance))
        (error "AEP client assertion is outside its validity window")
    ok claims

  -- `VerifyClientAssertion`
  unfoldable pub verify_client_assertion : VerifyOptions Key → Text → Outcome ClientAssertionClaims
  unfolding is_jose_algorithm text_eq
  verify_client_assertion options assertion = do
    let algorithms = algorithms_or_default options.algorithms
    fail_if (not (all is_jose_algorithm algorithms)) (error "unsupported AEP signing algorithm")
    token ← required (parse_signed assertion algorithms) (error "parse AEP client assertion")
    fail_if (not (token.signatures == 1))
        (error "AEP client assertion must contain exactly one signature")
    fail_if (is_empty token.key_id) (error "AEP client assertion kid is required")
    fail_if (not (has_type_jwt token.token_type)) (error "AEP client assertion typ must be JWT")
    resolved ← resolved_key options token
    key ← required resolved (error "AEP client assertion verification key is required")
    claims ← required (verified_claims assertion key) (error "verify AEP client assertion")
    checked_claims options token.key_id claims
