-- ===== src/Service/Credentials.antt =====
-- service/credentials.go, the in-memory store of issued credentials. The records of its map are a
-- list, in the order in which Go visits them; a record stands under its credential identifier.
pub mod Presentations
pub mod Revoked
pub mod Single
pub mod Visits
use aep_go.Prelude.{
  Bool, Error, List, Option, Outcome, Text, [], any, contains, err, error, if◌then◌else◌,
  is_empty_list, ltb, none, not, ok, some, text_eq, ◌&&◌, ◌++◌, ◌==◌, ◌∷◌,
}
use aep_go.Aep.Types.{Time}
use aep_go.Service.Credentials.Presentations.{
  Presentation, Headers, all_api_key_presentations, HeaderText, credential_presentations,
  header_values, api_key_type,
}

-- `memoryServiceCredentialRecord`; a credential that is not revoked has the zero time.
pub record StoredCredential : Type 0 where
  pub agent_did : Text
  pub credential_id : Text
  pub expires_at : Time
  pub grant_type : Text
  pub header : Text
  pub revoked_at : Time
  pub scopes : List Text
  pub verifier : Text

-- `CredentialMatch`
pub record CredentialMatch : Type 0 where
  pub agent_did : Text
  pub credential_id : Text
  pub expires_at : Time
  pub grant_type : Text
  pub scopes : List Text

abbrev pub has_credential_id : Text → StoredCredential → Bool
has_credential_id id r = text_eq r.credential_id id

-- The two credentials are of one Grant Type and have one header and one secret.
unfoldable pub same_secret : StoredCredential → StoredCredential → Bool
unfolding text_eq
same_secret a b =
    text_eq a.grant_type b.grant_type && text_eq a.header b.header && text_eq a.verifier b.verifier

-- `SaveCredential`; `prepared` is the result of `memoryCredentialRecord`.
unfoldable pub save_credential :
    Option Error
    → Outcome StoredCredential
    → List StoredCredential
    → Outcome (Unit {0}) × List StoredCredential
unfolding same_secret text_eq
save_credential (some cancelled) prepared records = (err cancelled, records)
save_credential none (err e) records = (err e, records)
save_credential none (ok stored) records =
    if any (has_credential_id stored.credential_id) records
    then (err (error "AEP credential identifier has already been issued"), records)
    else if any (λ existing. same_secret existing stored) records
    then (err (error "AEP credential secret has already been issued"), records)
    else (ok tt, stored ∷ records)

-- The record is of the Grant Type, is neither revoked nor expired, and has the secret and header of
-- the presentation.
unfoldable pub accepts_presentation :
    (sha256 : Text → Text) → (grant_type : Text) → Time → Presentation → StoredCredential → Bool
unfolding text_eq
accepts_presentation sha256 grant_type now presentation r =
    text_eq r.grant_type grant_type
    && text_eq r.header presentation.header
    && r.revoked_at == 0
    && ltb now r.expires_at
    && text_eq (sha256 presentation.value) r.verifier

abbrev match_of : StoredCredential → CredentialMatch
match_of r = record {
  agent_did = r.agent_did;
  credential_id = r.credential_id;
  expires_at = r.expires_at;
  grant_type = r.grant_type;
  scopes = r.scopes;
}

-- The loop over the records.
unfoldable pub first_match :
    (sha256 : Text → Text)
    → (grant_type : Text) → Time
    → Presentation
    → List StoredCredential
    → Option CredentialMatch
unfolding accepts_presentation
first_match sha256 grant_type now presentation [] = none
first_match sha256 grant_type now presentation (r ∷ records) =
    let rest = first_match sha256 grant_type now presentation records in
    if accepts_presentation sha256 grant_type now presentation r then some (match_of r) else rest

-- The headers under which the records of the Grant Type expect their secrets, each once.
unfoldable pub credential_headers : (grant_type : Text) → List StoredCredential → List Text
unfolding text_eq contains
credential_headers grant_type [] = []
credential_headers grant_type (r ∷ records) =
    let rest = credential_headers grant_type records in
    if text_eq r.grant_type grant_type && not (contains rest r.header)
    then r.header ∷ rest
    else rest

-- The presentations of a request, those under the headers of stored API keys included.
unfoldable pub collected_presentations :
    HeaderText → (grant_type : Text) → Headers → List StoredCredential → List Presentation
unfolding credential_presentations all_api_key_presentations credential_headers text_eq
collected_presentations http grant_type headers records =
    credential_presentations http grant_type headers
    ++ (if text_eq grant_type api_key_type
        then all_api_key_presentations http headers (credential_headers grant_type records)
        else [])

-- A request with one presentation is looked up.
unfoldable pub match_presentations :
    (sha256 : Text → Text)
    → (grant_type : Text) → List Presentation
    → Time
    → List StoredCredential
    → Option CredentialMatch
unfolding first_match
match_presentations sha256 grant_type (presentation ∷ []) now records =
    first_match sha256 grant_type now presentation records
match_presentations sha256 grant_type presentations now records = none

-- `AuthenticateCredential`
unfoldable pub authenticate_credential :
    HeaderText
    → (sha256 : Text → Text) → Option Error
    → (grant_type : Text) → Headers
    → Time
    → List StoredCredential
    → Outcome (Option CredentialMatch)
unfolding match_presentations collected_presentations
authenticate_credential http sha256 (some cancelled) grant_type headers now records = err cancelled
authenticate_credential http sha256 none grant_type headers now records = ok (
    match_presentations sha256 grant_type (collected_presentations http grant_type headers records)
      now records)

-- `HasCredentialPresentation`
unfoldable pub has_credential_presentation :
    HeaderText → Option Error → (grant_type : Text) → Headers → List StoredCredential → Outcome Bool
unfolding credential_presentations header_values text_eq
has_credential_presentation http (some cancelled) grant_type headers records = err cancelled
has_credential_presentation http none grant_type headers records = ok (
    if text_eq grant_type api_key_type
    then any
        (λ r.
          text_eq r.grant_type grant_type
          && not (is_empty_list (header_values http headers r.header)))
        records
    else not (is_empty_list (credential_presentations http grant_type headers)))

abbrev pub revoked : Time → StoredCredential → StoredCredential
revoked at r = record r { revoked_at = at }

-- Revokes the records that pass the test.
unfoldable pub revoke_where :
    (StoredCredential → Bool) → Time → List StoredCredential → List StoredCredential
revoke_where test at [] = []
revoke_where test at (r ∷ records) =
    let rest = revoke_where test at records in (if test r then revoked at r else r) ∷ rest

abbrev pub is_granted : (agent_did grant_type : Text) → StoredCredential → Bool
is_granted agent_did grant_type r = text_eq r.agent_did agent_did && text_eq r.grant_type grant_type

-- The checks of both revocations.
abbrev pub checked_revocation :
    Option Error
    → Time
    → (records after : List StoredCredential) → Outcome (Unit {0}) × List StoredCredential
checked_revocation (some cancelled) at records after = (err cancelled, records)
checked_revocation none at records after =
    if at == 0
    then (err (error "AEP credential revocation requires a time"), records)
    else (ok tt, after)

-- `RevokeCredential`
unfoldable pub revoke_credential :
    Option Error
    → (agent_did grant_type credential_id : Text) → Time
    → List StoredCredential
    → Outcome (Unit {0}) × List StoredCredential
unfolding revoke_where text_eq
revoke_credential cancelled agent_did grant_type credential_id at records =
    checked_revocation cancelled at records (
      revoke_where (λ r. has_credential_id credential_id r && is_granted agent_did grant_type r) at
        records)

-- `RevokeGrantType`
unfoldable pub revoke_grant_type :
    Option Error
    → (agent_did grant_type : Text) → Time
    → List StoredCredential
    → Outcome (Unit {0}) × List StoredCredential
unfolding revoke_where text_eq
revoke_grant_type cancelled agent_did grant_type at records =
    checked_revocation cancelled at records
      (revoke_where (is_granted agent_did grant_type) at records)

-- One call that changes the store.
pub data CredentialCall : Type 0 where
  saves : Option Error → Outcome StoredCredential → CredentialCall
  revokes : Option Error → (agent_did grant_type credential_id : Text) → Time → CredentialCall
  revokes_type : Option Error → (agent_did grant_type : Text) → Time → CredentialCall

unfoldable pub after_call : CredentialCall → List StoredCredential → List StoredCredential
unfolding save_credential revoke_credential revoke_grant_type
after_call (saves cancelled prepared) records = (save_credential cancelled prepared records).1
after_call (revokes cancelled agent_did grant_type credential_id at) records =
    (revoke_credential cancelled agent_did grant_type credential_id at records).1
after_call (revokes_type cancelled agent_did grant_type at) records =
    (revoke_grant_type cancelled agent_did grant_type at records).1

unfoldable pub after_calls : List CredentialCall → List StoredCredential → List StoredCredential
unfolding after_call
after_calls [] records = records
after_calls (c ∷ calls) records = after_calls calls (after_call c records)
