-- ===== src/Platform/AgentDids.antt =====
-- platform/document.go: the DID and the document address that an identity gets, and its DID document.
pub mod Escaped
use aep_go.Prelude.{
  Bool, List, Option, Outcome, Text, [], bytes, drop, err, error, fail_if, false, if◌then◌else◌,
  is_empty, is_some, ltb, map, none, not, ok, select, some, text_eq, ℕ, ◌%◌, ◌&&◌, ◌++◌, ◌+◌, ◌-◌,
  ◌/◌, ◌==◌, ◌>>=◌, ◌>>◌, ◌||◌, ◌∷◌,
}
use aep_go.Platform.Config.{DidVerificationMethod}
use aep_go.Aep.Bytes.{is_alphanumeric, split, has_prefix}
use aep_go.Platform.Identities.{validate_identity_record}
use aep_go.Platform.Types.{IdentityRecord}

-- `url.URL` with the parts that only the construction of a Platform reads. `text` is `String()`.
pub record ParsedUrl : Type 0 where
  pub scheme : Text
  pub host : Text
  pub hostname : Text
  pub has_user : Bool
  pub path : Text
  pub raw_query : Text
  pub fragment : Text
  pub text : Text

-- An upper-case hexadecimal digit.
abbrev pub hex_digit : ℕ → ℕ
hex_digit d = if ltb d 10 then b'0' + d else b'A' + (d - 10)

abbrev pub is_unreserved : ℕ → Bool
is_unreserved c = is_alphanumeric c || c == b'-' || c == b'_' || c == b'.' || c == b'~'

-- `escapeDIDComponent`: `url.QueryEscape` writes a space as a plus sign, and only a space.
unfoldable pub escape_did_component : Text → Text
escape_did_component [] = []
escape_did_component (c ∷ value) =
    let rest = escape_did_component value in
    if is_unreserved c then c ∷ rest else b'%' ∷ hex_digit (c / 16) ∷ hex_digit (c % 16) ∷ rest

-- `strings.Trim(prefix, "/")`, split at the slashes, without the empty parts
unfoldable pub prefix_parts : Text → List Text
unfolding split
prefix_parts prefix = select (λ part. not (is_empty part)) (split prefix b'/')

-- `strings.Join(parts, ":")`
abbrev pub join_colon : List Text → Text
join_colon [] = []
join_colon (part ∷ []) = part
join_colon (part ∷ next ∷ parts) = part ++ (b':' ∷ join_colon (next ∷ parts))

abbrev pub default_did_path_prefix : Text
default_did_path_prefix = bytes "agents"

module _ (parse_url : Text → Option ParsedUrl) where
  unfoldable pub is_did_host : Text → Bool
  unfolding text_eq
  is_did_host host = elim (parse_url (bytes "https://" ++ host)) [
    | none ↦ false
    | some parsed ↦
        text_eq parsed.host host
        && not (is_empty parsed.hostname || parsed.has_user)
        && is_empty parsed.path
        && is_empty parsed.raw_query
        && is_empty parsed.fragment
  ]

  -- `CreateServiceScopedAgentDID`
  unfoldable pub create_service_scoped_agent_did :
      (host path_prefix agent_did_id : Text) → Outcome Text
  unfolding is_did_host escape_did_component prefix_parts
  create_service_scoped_agent_did host path_prefix agent_did_id = do
    fail_if (is_empty host || is_empty agent_did_id)
        (error "AEP Platform DID host and Agent DID identifier are required")
    fail_if (not (is_did_host host)) (error "AEP Platform DID host is invalid")
    ok (
        join_colon (
          bytes "did"
          ∷ bytes "web"
          ∷ escape_did_component host
          ∷ (map escape_did_component (
                prefix_parts
                  (if is_empty path_prefix then default_did_path_prefix else path_prefix))
              ++ (escape_did_component agent_did_id ∷ []))))

  -- The template around its only placeholder, `none` if the count is not one.
  abbrev pub placeholder : Text
  placeholder = bytes "{agent_did_id}"

  -- What stands before and after the first occurrence of the placeholder.
  unfoldable pub cut_placeholder : Text → Option (Text × Text)
  unfolding has_prefix
  cut_placeholder [] = none
  cut_placeholder (c ∷ template) =
      let rest = cut_placeholder template in
      if has_prefix (c ∷ template) placeholder
      then some ([], drop 14 (c ∷ template))
      else elim rest [ none ↦ none | some (before, after) ↦ some (c ∷ before, after) ]

  -- `renderDIDURL`
  unfoldable pub render_did_url : (template agent_did_id : Text) → Outcome Text
  unfolding cut_placeholder escape_did_component text_eq
  render_did_url template agent_did_id =
      let missing =
        error "AEP Platform DID URL template must contain one {agent_did_id} placeholder" in
      elim (cut_placeholder template) [
        | none ↦ err missing
        | some (before, after) ↦
            if is_some (cut_placeholder after)
            then err missing
            else elim (parse_url (before ++ (escape_did_component agent_did_id ++ after))) [
              | none ↦ err (error "AEP Platform DID URL template must render an absolute HTTPS URL")
              | some parsed ↦
                  fail_if
                    (not (text_eq parsed.scheme (bytes "https"))
                      || is_empty parsed.hostname
                      || parsed.has_user
                      || not (is_empty parsed.fragment))
                    (error "AEP Platform DID URL template must render an absolute HTTPS URL")
                  >> ok parsed.text
            ]
      ]

  -- `validateDIDURLTemplate`; `document_url` is `aep.DIDWebDocumentURL` in its text form.
  unfoldable pub validate_did_url_template :
      (Text → Outcome Text) → (host path_prefix template : Text) → Outcome (Unit {0})
  unfolding create_service_scoped_agent_did render_did_url text_eq
  validate_did_url_template document_url host path_prefix template = do
    let probe = bytes "aep-platform-did-url-probe"
    agent_did ← create_service_scoped_agent_did host path_prefix probe
    rendered ← render_did_url template probe
    resolved ← document_url agent_did
    fail_if (not (text_eq rendered resolved))
        (error "AEP Platform DID URL template renders another address than the Agent DID")

-- `DIDDocument`
pub record DidDocument : Type 0 where
  pub context : List Text
  pub assertion_method : List Text
  pub authentication : List Text
  pub capability_invocation : List Text
  pub id : Text
  pub verification_method : List DidVerificationMethod

-- `CreateDIDDocument`; `is_object` tells whether a text decodes to a JSON object.
unfoldable pub create_did_document :
    (is_object : Text → Bool) → IdentityRecord → DidVerificationMethod → Outcome DidDocument
unfolding validate_identity_record text_eq
create_did_document is_object identity method = do
  validate_identity_record identity
  fail_if
      (not (text_eq method.id identity.key_id)
        || not (text_eq method.controller identity.agent_did)
        || is_empty method.method_type
        || is_empty method.public_key_jwk)
      (error "AEP Platform DID verification method does not match the managed identity")
  fail_if (not (is_object method.public_key_jwk))
      (error "AEP Platform DID verification method requires a public JWK object")
  ok (record {
    context = bytes "https://www.w3.org/ns/did/v1" ∷ [];
    assertion_method = method.id ∷ [];
    authentication = method.id ∷ [];
    capability_invocation = method.id ∷ [];
    id = identity.agent_did;
    verification_method = method ∷ [];
  })
