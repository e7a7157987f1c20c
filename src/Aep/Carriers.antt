-- ===== src/Aep/Carriers.antt =====
-- http.go: the header fields that carry the authorization of a request for a protected resource.
-- A carrier and a scheme are texts, as in the source; the result of `strings.ToLower` is an
-- argument, since it follows Unicode.
pub mod Carried
pub mod Rendered
use aep_go.Prelude.{
  Bool, Outcome, Text, [], all, bytes, err, error, fail_if, if◌then◌else◌, is_empty, leb, not, ok,
  text_eq, ℕ, ◌&&◌, ◌++◌, ◌==◌, ◌>>=◌, ◌>>◌, ◌||◌, ◌∷◌,
}
use aep_go.Aep.Bytes.{contains_byte}

-- `ProtectedResourceAuthorization`
pub record ProtectedResourceAuthorization : Type 0 where
  pub carrier : Text
  pub scheme : Text
  pub credentials : Text

-- `ProtectedResourceStandard`
abbrev pub standard_carrier : Text
standard_carrier = bytes "Authorization"

-- `ProtectedResourceDedicated`
abbrev pub dedicated_carrier : Text
dedicated_carrier = bytes "AEP-Authorization"

-- `CredentialSchemeAEP`
abbrev pub aep_scheme : Text
aep_scheme = bytes "AEP"

-- `CredentialSchemeBearer`
abbrev pub bearer_scheme : Text
bearer_scheme = bytes "Bearer"

-- `CredentialSchemeBasic`
abbrev pub basic_scheme : Text
basic_scheme = bytes "Basic"

-- `ProtectedResourceAuthorizationHeader`; `AuthorizationHeader` is the dedicated carrier's name.
unfoldable pub authorization_header : Text → Outcome Text
unfolding text_eq
authorization_header carrier =
    if is_empty carrier || text_eq carrier standard_carrier
    then ok standard_carrier
    else if text_eq carrier dedicated_carrier
    then ok dedicated_carrier
    else err (error "unsupported AEP authorization carrier")

abbrev pub is_visible : ℕ → Bool
is_visible c = leb 33 c && leb c 126

-- `isCredentialToken`
unfoldable pub is_credential_token : Text → Bool
is_credential_token text = not (is_empty text) && all is_visible text

-- `isCredentialScheme`
unfoldable pub is_credential_scheme : Text → Bool
unfolding text_eq
is_credential_scheme scheme =
    text_eq scheme aep_scheme || text_eq scheme bearer_scheme || text_eq scheme basic_scheme

-- `canonicalCredentialScheme`
unfoldable pub canonical_credential_scheme : (to_lower : Text → Text) → Text → Text
unfolding text_eq
canonical_credential_scheme to_lower text =
    let lower = to_lower text in
    if text_eq lower (bytes "aep")
    then aep_scheme
    else if text_eq lower (bytes "bearer")
    then bearer_scheme
    else if text_eq lower (bytes "basic")
    then basic_scheme
    else []

-- `ValidateProtectedResourceAuthorization`
unfoldable pub validate_authorization : ProtectedResourceAuthorization → Outcome (Unit {0})
validate_authorization value =
    fail_if (is_empty value.credentials) (error "authorization credentials must not be empty")
    >> fail_if (not (is_credential_token value.credentials))
        (error "authorization credentials must be visible US-ASCII")
    >> fail_if (not (is_credential_scheme value.scheme)) (error "unsupported authorization scheme")
    >> (authorization_header value.carrier >>= λ header. ok tt)

-- `RenderProtectedResourceAuthorization`: the name of the header and its value.
unfoldable pub render_authorization : ProtectedResourceAuthorization → Outcome (Text × Text)
render_authorization value =
    validate_authorization value
    >> (authorization_header value.carrier >>= λ header.
        ok (header, value.scheme ++ (b' ' ∷ value.credentials)))

abbrev pub is_blank : ℕ → Bool
is_blank c = c == b' ' || c == 9

-- What stands before the first blank, which `strings.IndexAny` finds, and the text from there.
unfoldable pub cut_blank : Text → Text × Text
cut_blank [] = ([], [])
cut_blank (c ∷ text) =
    let (before, after) = cut_blank text in
    if is_blank c then ([], c ∷ text) else (c ∷ before, after)

-- `strings.TrimLeft(text, " \t")`
unfoldable pub trim_left : Text → Text
trim_left [] = []
trim_left (c ∷ text) = let rest = trim_left text in if is_blank c then rest else c ∷ text

-- `strings.TrimRight(text, " \t")`
unfoldable pub trim_right : Text → Text
trim_right [] = []
trim_right (c ∷ text) =
    let rest = trim_right text in if is_blank c && is_empty rest then [] else c ∷ rest

abbrev not_recognized : Outcome ProtectedResourceAuthorization
not_recognized = err (error "the authorization presentation was not recognized")

-- The field without the checks of its carrier; the text is the part before the first blank and the
-- part from it.
unfoldable pub parse_presentation :
    (to_lower : Text → Text)
    → (carrier : Text) → Text × Text
    → Outcome ProtectedResourceAuthorization
parse_presentation to_lower carrier (name, rest) =
    let scheme = canonical_credential_scheme to_lower name in
    let credentials = trim_right (trim_left rest) in
    if is_empty name || is_empty rest
    then not_recognized
    else if is_empty scheme
    then not_recognized
    else if not (is_credential_token credentials)
    then not_recognized
    else ok (record { carrier = carrier; scheme = scheme; credentials = credentials })

-- `ParseProtectedResourceAuthorization`
unfoldable pub parse_authorization :
    (to_lower : Text → Text) → (field carrier : Text) → Outcome ProtectedResourceAuthorization
parse_authorization to_lower field carrier =
    let used = if is_empty carrier then standard_carrier else carrier in
    authorization_header used >>= λ header.
    if text_eq used dedicated_carrier && contains_byte field b','
    then err (error "the dedicated authorization field is ambiguous")
    else parse_presentation to_lower used (cut_blank field)
