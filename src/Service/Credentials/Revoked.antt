-- ===== src/Service/Credentials/Revoked.antt =====
-- A revoked credential stays revoked.
use aep_go.Prelude.{
  All, Bool, Bool-cases, Error, List, Option, Outcome, Text, [], any, arith, err, false, inl, inr,
  none, ok, ok_injective, refl, some, subst, sym, text_eq, text_eq_refl, text_eq_sound, true, ◌&&◌,
  ◌==◌, ◌∙◌, ◌∷◌, ◌≡◌, ◌≢◌,
}
use aep_go.Service.Credentials.{
  CredentialCall, saves, revokes, revokes_type, save_credential, same_secret, checked_revocation,
  after_calls, revoke_where, StoredCredential, after_call, has_credential_id, first_match,
  is_granted, authenticate_credential, Presentation, CredentialMatch, revoke_credential,
  accepts_presentation, collected_presentations, match_presentations,
}
use aep_go.Aep.Types.{Time}
use aep_go.Service.Credentials.Presentations.{Headers, presented, HeaderText}

-- Every record of the credential is revoked.
abbrev pub AllRevoked : Text → List StoredCredential → Type 0
AllRevoked id records = All (λ r. text_eq r.credential_id id ≡ true → r.revoked_at ≢ 0) records

-- The credential has been issued, and it is revoked.
pub record IsRetired (id : Text) (records : List StoredCredential) : Type 0 where
  pub issued : any (has_credential_id id) records ≡ true
  pub dead : AllRevoked id records

module _ (test : StoredCredential → Bool) (at : Time) where
  revoke_where_ids :
      (id : Text) (records : List StoredCredential)
      → any (has_credential_id id) (revoke_where test at records)
        ≡ any (has_credential_id id) records
  unfolding revoke_where
  revoke_where_ids id [] = refl
  revoke_where_ids id (r ∷ records) = ground (arith, revoke_where_ids id records)

  revoke_where-AllRevoked :
      (id : Text) (records : List StoredCredential)
      → at ≢ 0
      → AllRevoked id records
      → AllRevoked id (revoke_where test at records)
  unfolding revoke_where
  revoke_where-AllRevoked id [] set h = tt
  revoke_where-AllRevoked id (r ∷ records) set (now, later) =
      (λ same. ground arith, revoke_where-AllRevoked id records set later)

  revoke_where-IsRetired :
      (id : Text) (records : List StoredCredential)
      → at ≢ 0
      → IsRetired id records
      → IsRetired id (revoke_where test at records)
  revoke_where-IsRetired id records set h = record {
    issued = revoke_where_ids id records ∙ h.issued;
    dead = revoke_where-AllRevoked id records set h.dead;
  }

  -- Revoking a credential retires it, if the test takes every record of it.
  revoke_where_retires :
      (id : Text) (records : List StoredCredential)
      → at ≢ 0
      → All (λ r. text_eq r.credential_id id ≡ true → test r ≡ true) records
      → AllRevoked id (revoke_where test at records)
  unfolding revoke_where
  revoke_where_retires id [] set h = tt
  revoke_where_retires id (r ∷ records) set (now, later) =
      (λ same. ground arith, revoke_where_retires id records set later)

save_credential-IsRetired :
    (cancelled : Option Error) (prepared : Outcome StoredCredential) (id : Text)
    (records : List StoredCredential)
    → IsRetired id records
    → IsRetired id (save_credential cancelled prepared records).1
unfolding save_credential
save_credential-IsRetired (some e) prepared id records h = h
save_credential-IsRetired none (err e) id records h = h
save_credential-IsRetired none (ok stored) id records h =
    elim (Bool-cases (any (has_credential_id stored.credential_id) records)) [
      | inl taken ↦ rw taken h
      | inr free ↦ elim (Bool-cases (any (λ existing. same_secret existing stored) records)) [
        | inl known ↦ rw (free, known) h
        | inr fresh ↦
            rw (free, fresh)
              (record {
                issued = ground (arith, h.issued);
                dead = (
                  λ same. absurd (
                      differs id stored.credential_id records h.issued free
                        (text_eq_sound stored.credential_id id same)),
                  h.dead,
                );
              })
      ]
    ]
  where
    differs :
        (id other : Text) (records : List StoredCredential)
        → any (has_credential_id id) records ≡ true
        → any (has_credential_id other) records ≡ false
        → other ≢ id
    differs id other records h g e = cc

checked_revocation-IsRetired :
    (cancelled : Option Error) (at : Time) (test : StoredCredential → Bool) (id : Text)
    (records : List StoredCredential)
    → IsRetired id records
    → IsRetired id (checked_revocation cancelled at records (revoke_where test at records)).1
checked_revocation-IsRetired (some e) at test id records h = h
checked_revocation-IsRetired none at test id records h = elim (Bool-cases (at == 0)) [
  | inl unset ↦ rw unset h
  | inr set ↦ rw set (revoke_where-IsRetired test at id records (ground arith) h)
]

after_calls-IsRetired :
    (calls : List CredentialCall) (id : Text) (records : List StoredCredential)
    → IsRetired id records
    → IsRetired id (after_calls calls records)
unfolding after_calls after_call
after_calls-IsRetired [] id records h = h
after_calls-IsRetired (saves cancelled prepared ∷ calls) id records h =
    after_calls-IsRetired calls id _ (save_credential-IsRetired cancelled prepared id records h)
after_calls-IsRetired (revokes cancelled agent_did grant_type credential_id at ∷ calls) id records
      h =
    after_calls-IsRetired calls id _ (checked_revocation-IsRetired cancelled at _ id records h)
after_calls-IsRetired (revokes_type cancelled agent_did grant_type at ∷ calls) id records h =
    after_calls-IsRetired calls id _ (checked_revocation-IsRetired cancelled at _ id records h)

first_match_alive :
    (sha256 : Text → Text) (grant_type id : Text) (now : Time) (presentation : Presentation)
    (records : List StoredCredential) (m : CredentialMatch)
    → AllRevoked id records
    → first_match sha256 grant_type now presentation records ≡ some m
    → text_eq m.credential_id id ≡ false
unfolding first_match accepts_presentation
first_match_alive sha256 grant_type id now presentation [] m h e = absurd (ground arith)
first_match_alive sha256 grant_type id now presentation (r ∷ records) m (now_dead, later) e =
    elim (Bool-cases (accepts_presentation sha256 grant_type now presentation r)) [
      | inr refused ↦
          first_match_alive sha256 grant_type id now presentation records m later (ground arith)
      | inl accepted ↦ ground arith
    ]

match_alive :
    (sha256 : Text → Text) (grant_type id : Text) (presentations : List Presentation) (now : Time)
    (records : List StoredCredential) (m : CredentialMatch)
    → AllRevoked id records
    → match_presentations sha256 grant_type presentations now records ≡ some m
    → m.credential_id ≢ id
unfolding match_presentations
match_alive sha256 grant_type id [] now records m h e = absurd (ground arith)
match_alive sha256 grant_type id (p ∷ q ∷ presentations) now records m h e = absurd (ground arith)
match_alive sha256 grant_type id (p ∷ []) now records m h e = λ same.
    let alive = first_match_alive sha256 grant_type id now p records m h e in
    ground (arith, text_eq_refl id)

authenticate_alive :
    (http : HeaderText) (sha256 : Text → Text) (cancelled : Option Error) (grant_type id : Text)
    (headers : Headers) (now : Time) (records : List StoredCredential) (m : CredentialMatch)
    → AllRevoked id records
    → authenticate_credential http sha256 cancelled grant_type headers now records ≡ ok (some m)
    → m.credential_id ≢ id
unfolding authenticate_credential
authenticate_alive http sha256 (some c) grant_type id headers now records m h e =
    absurd (ground arith)
authenticate_alive http sha256 none grant_type id headers now records m h e =
    match_alive sha256 grant_type id (collected_presentations http grant_type headers records) now
      records m h (ok_injective _ _ e)

-- Every record of the credential is the agent's, of the Grant Type.
abbrev pub IsHeldBy : (agent_did grant_type id : Text) → List StoredCredential → Type 0
IsHeldBy agent_did grant_type id records =
    All (λ r. text_eq r.credential_id id ≡ true → is_granted agent_did grant_type r ≡ true) records

held_revoked :
    (agent_did grant_type id : Text) (records : List StoredCredential)
    → IsHeldBy agent_did grant_type id records
    → All
        (λ r.
          text_eq r.credential_id id ≡ true
          → (has_credential_id id r && is_granted agent_did grant_type r) ≡ true)
        records
held_revoked agent_did grant_type id [] h = tt
held_revoked agent_did grant_type id (r ∷ records) (now, later) =
    (λ same. ground arith, held_revoked agent_did grant_type id records later)

-- Once an issued credential has been revoked for the agent and the Grant Type that it belongs to,
-- no request authenticates with it again, whatever calls that save or revoke credentials follow
-- and whatever the clock says.
pub revoked_never_authenticates :
    (http : HeaderText) (sha256 : Text → Text) (agent_did grant_type id : Text) (at : Time)
    (records : List StoredCredential) (calls : List CredentialCall) (cancelled : Option Error)
    (presented : Text) (headers : Headers) (now : Time) (m : CredentialMatch)
    → at ≢ 0
    → any (has_credential_id id) records ≡ true
    → IsHeldBy agent_did grant_type id records
    → authenticate_credential http sha256 cancelled presented headers now
        (after_calls calls (revoke_credential none agent_did grant_type id at records).1)
      ≡ ok (some m)
    → m.credential_id ≢ id
unfolding revoke_credential
revoked_never_authenticates http sha256 agent_did grant_type id at records calls cancelled presented
      headers now m set issued held e =
    let test : StoredCredential → Bool =
      λ r. has_credential_id id r && is_granted agent_did grant_type r in
    let retired : IsRetired id (revoke_where test at records) = record {
      issued = revoke_where_ids test at id records ∙ issued;
      dead =
          revoke_where_retires test at id records set
            (held_revoked agent_did grant_type id records held);
    } in
    let here : (revoke_credential none agent_did grant_type id at records).1
        ≡ revoke_where test at records =
      ground arith in
    let later =
      after_calls-IsRetired calls id (revoke_credential none agent_did grant_type id at records).1
        (subst (IsRetired id) (sym here) retired) in
    authenticate_alive http sha256 cancelled presented id headers now _ m later.dead e
