-- ===== src/Service/Credentials/Presentations.antt =====
-- service/credentials.go and service/authentication.go: the credentials that the header fields of a
-- request present.
use aep_go.Prelude.{Bool, List, Text, [], bytes, err, if◌then◌else◌, map, ok, text_eq, ◌++◌, ◌∷◌}
use aep_go.Aep.Carriers.{basic_scheme, standard_carrier, bearer_scheme, parse_authorization}

-- `credentialPresentation`
pub record Presentation : Type 0 where
  pub header : Text
  pub value : Text

-- Functions on the texts of HTTP: `strings.EqualFold`, `http.CanonicalHeaderKey`, `strings.ToLower`.
pub record HeaderText : Type 0 where
  pub equal_fold : Text → Text → Bool
  pub canonical_key : Text → Text
  pub to_lower : Text → Text

-- `http.Header`: the fields, in the order in which Go visits the map.
abbrev pub Headers : Type 0
Headers = List (Text × List Text)

-- `GrantTypeAPIKey`
abbrev pub api_key_type : Text
api_key_type = bytes "api-key"

-- `GrantTypeBasic`
abbrev pub basic_type : Text
basic_type = bytes "basic"

-- `headerValues`
unfoldable pub header_values : HeaderText → Headers → (name : Text) → List Text
header_values http [] name = []
header_values http ((candidate, values) ∷ headers) name =
    let rest = header_values http headers name in
    if http.equal_fold candidate name then values ++ rest else rest

-- The loop over the values of the header Authorization.
unfoldable pub presented : HeaderText → (expected : Text) → List Text → List Presentation
unfolding parse_authorization text_eq
presented http expected [] = []
presented http expected (value ∷ values) =
    let rest = presented http expected values in
    elim (parse_authorization http.to_lower value standard_carrier) [
      | err e ↦ rest
      | ok parsed ↦
          if text_eq parsed.scheme expected
          then record { header = standard_carrier; value = parsed.credentials } ∷ rest
          else rest
    ]

-- `credentialPresentations`
unfoldable pub credential_presentations :
    HeaderText → (grant_type : Text) → Headers → List Presentation
unfolding presented header_values text_eq
credential_presentations http grant_type headers =
    if text_eq grant_type api_key_type
    then []
    else presented http (if text_eq grant_type basic_type then basic_scheme else bearer_scheme)
        (header_values http headers standard_carrier)

-- `apiKeyPresentations`
unfoldable pub api_key_presentations : HeaderText → Headers → (header : Text) → List Presentation
unfolding header_values
api_key_presentations http headers header =
    map (λ (value : Text). record { header = http.canonical_key header; value = value })
      (header_values http headers header)

-- The presentations under each of the headers.
unfoldable pub all_api_key_presentations :
    HeaderText → Headers → (names : List Text) → List Presentation
unfolding api_key_presentations
all_api_key_presentations http headers [] = []
all_api_key_presentations http headers (name ∷ names) =
    api_key_presentations http headers name ++ all_api_key_presentations http headers names
