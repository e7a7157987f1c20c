-- ===== src/Service/CredentialTests.antt =====
-- Runs of the store of issued credentials on concrete values.
use aep_go.Prelude.{
  List, Option, Outcome, Text, [], arith, bytes, err, none, ok, refl, some, text_eq, ◌∷◌, ◌≡◌, ◌≢◌,
  ◌⊎◌,
}
use aep_go.Service.Credentials.Presentations.{header_values}
use aep_go.Aep.Carriers.{
  authorization_header, parse_presentation, trim_right, is_credential_token,
  canonical_credential_scheme, parse_authorization, trim_left, cut_blank,
}
use aep_go.Service.Authentication.{dedicated_presentation, is_recognized, standard_presentation}
use aep_go.Service.Credentials.{
  CredentialCall, saves, StoredCredential, authenticate_credential, after_calls, CredentialMatch,
}
use mathlib.Core.List.{Permᴰ}
use aep_go.Service.Credentials.Revoked.{revoked_never_authenticates}
use aep_go.Service.Credentials.Single.{authenticate_credential-perm}
use aep_go.Service.Credentials.Presentations.{HeaderText, Headers}
use aep_go.Service.Authentication.{select_authorization_presentation}
use aep_go.Service.Authentication.Single.{
  select_authorization_presentation-IsSingle, recognized_presentations,
}

abbrev toy_credential : Text → StoredCredential
toy_credential id = record {
  agent_did = bytes "did:web:a";
  credential_id = id;
  expires_at = 100;
  grant_type = bytes "api-key";
  header = bytes "X-Key";
  revoked_at = 0;
  scopes = [];
  verifier = id;
}

abbrev toy_saves : List CredentialCall
toy_saves =
    saves none (ok (toy_credential (bytes "c"))) ∷ saves none (ok (toy_credential (bytes "d"))) ∷ []

abbrev two_credentials : List StoredCredential
two_credentials = toy_credential (bytes "c") ∷ toy_credential (bytes "d") ∷ []

abbrev toy_http : HeaderText
toy_http = record { equal_fold = text_eq; canonical_key = λ t. t; to_lower = λ t. t }

abbrev toy_headers : Text → Headers
toy_headers secret = (bytes "X-Key", secret ∷ []) ∷ []

revoked_never_authenticates_example : bytes "d" ≢ bytes "c"
unfolding text_eq after_calls authenticate_credential
revoked_never_authenticates_example =
    revoked_never_authenticates toy_http (λ t. t) (bytes "did:web:a") (bytes "api-key") (bytes "c")
      9 two_credentials [] none (bytes "api-key") (toy_headers (bytes "d")) 10
      (record {
        agent_did = bytes "did:web:a";
        credential_id = bytes "d";
        expires_at = 100;
        grant_type = bytes "api-key";
        scopes = [];
      })
      (λ e. ground arith) refl ((λ e. refl), ((λ e. refl), tt)) refl

-- The store that the calls leave.
saved : after_calls toy_saves [] ≡ toy_credential (bytes "d") ∷ toy_credential (bytes "c") ∷ []
unfolding after_calls text_eq
saved = refl

-- The identifier of the credential that is found.
abbrev matched_id : Outcome (Option CredentialMatch) → Option Text
matched_id (ok (some m)) = some m.credential_id
matched_id (ok none) = none
matched_id (err e) = none

found :
    matched_id (
      authenticate_credential toy_http
        (λ t. t)
        none
        (bytes "api-key")
        (toy_headers (bytes "c"))
        10
        two_credentials)
    ≡ some (bytes "c")
unfolding authenticate_credential text_eq
found = refl

authenticate_credential-perm_example :
    authenticate_credential toy_http
      (λ t. t)
      none
      (bytes "api-key")
      (toy_headers (bytes "c"))
      10
      (after_calls toy_saves [])
    ≡ authenticate_credential toy_http
        (λ t. t)
        none
        (bytes "api-key")
        (toy_headers (bytes "c"))
        10
        two_credentials
unfolding after_calls text_eq
authenticate_credential-perm_example =
    authenticate_credential-perm toy_http (λ t. t) none (bytes "api-key") (toy_headers (bytes "c"))
      10 toy_saves two_credentials (Permᴰ.swap refl refl)

abbrev toy_request : Headers
toy_request = (bytes "Authorization", bytes "basic eDp5" ∷ []) ∷ toy_headers (bytes "c")

select_authorization_presentation-IsSingle_example :
    ((bytes "basic eDp5" ≡ []) × (recognized_presentations toy_http toy_request ≡ []))
    ⊎ (recognized_presentations toy_http toy_request ≡ bytes "basic eDp5" ∷ [])
unfolding select_authorization_presentation dedicated_presentation header_values text_eq
    standard_presentation is_recognized parse_authorization authorization_header parse_presentation
    cut_blank canonical_credential_scheme is_credential_token trim_right trim_left
select_authorization_presentation-IsSingle_example =
    select_authorization_presentation-IsSingle toy_http toy_request (bytes "basic eDp5") refl
