-- ===== src/Service/Credentials/Single.antt =====
-- A secret belongs to one credential.
use aep_go.Prelude.{
  All, All-perm, Bool, Bool-cases, Error, List, Option, Outcome, Text, [], any, ap, arith, err,
  false, if◌then◌else◌, inl, inr, is_empty_list, none, ok, refl, some, subst, text_eq_refl,
  text_eq_sound, true, ◌==◌, ◌∙◌, ◌∷◌, ◌≡◌,
}
use aep_go.Service.Credentials.{
  CredentialCall, saves, revokes, revokes_type, first_match, revoke_where, StoredCredential,
  checked_revocation, after_calls, same_secret, save_credential, authenticate_credential,
  accepts_presentation, after_call, Presentation, has_credential_id, revoked,
  collected_presentations, match_presentations,
}
use mathlib.Core.List.{Permᴰ}
use aep_go.Aep.Types.{Time}
use aep_go.Service.Credentials.Presentations.{Headers, HeaderText}
use aep_go.Service.Credentials.Visits.{collected_presentations-perm}

-- No record has the secret of an earlier one.
abbrev pub DistinctSecrets : List StoredCredential → Type 0
DistinctSecrets [] = Unit
DistinctSecrets (r ∷ records) = All (λ x. same_secret x r ≡ false) records × DistinctSecrets records

same_secret_sym : (a b : StoredCredential) → same_secret a b ≡ false → same_secret b a ≡ false
unfolding same_secret
same_secret_sym a b h = ground (
  arith,
  text_eq_sound b.grant_type a.grant_type,
  text_eq_sound b.header a.header,
  text_eq_sound b.verifier a.verifier,
  text_eq_refl a.grant_type,
  text_eq_refl a.header,
  text_eq_refl a.verifier,
)

pub DistinctSecrets-perm :
    {l r : List StoredCredential} → Permᴰ l r → DistinctSecrets l → DistinctSecrets r
DistinctSecrets-perm Permᴰ.nil h = tt
DistinctSecrets-perm (Permᴰ.cons {a} {b} {l₁} {l₂} e d) (apart, rest) = (
  subst (λ x. All (λ y. same_secret y x ≡ false) l₂) e
      (All-perm (λ y. same_secret y a ≡ false) d apart),
  DistinctSecrets-perm d rest,
)
DistinctSecrets-perm (Permᴰ.swap {a} {b} {a'} {b'} {l} e f) ((ba, la), (lb, rest)) =
    subst (λ x. DistinctSecrets (x ∷ b' ∷ l)) f
      (subst (λ x. DistinctSecrets (b ∷ x ∷ l)) e ((same_secret_sym b a ba, lb), (la, rest)))
DistinctSecrets-perm (Permᴰ.trans d e) h = DistinctSecrets-perm e (DistinctSecrets-perm d h)

module _ (sha256 : Text → Text) (grant_type : Text) (now : Time) (p : Presentation) where
  accepts_one :
      (a b : StoredCredential)
      → accepts_presentation sha256 grant_type now p a ≡ true
      → accepts_presentation sha256 grant_type now p b ≡ true
      → same_secret b a ≡ true
  unfolding accepts_presentation same_secret
  accepts_one a b h g = ground (
    arith,
    text_eq_sound a.grant_type grant_type,
    text_eq_sound a.header p.header,
    text_eq_sound (sha256 p.value) a.verifier,
    text_eq_sound b.grant_type grant_type,
    text_eq_sound b.header p.header,
    text_eq_sound (sha256 p.value) b.verifier,
    text_eq_refl grant_type,
    text_eq_refl p.header,
    text_eq_refl (sha256 p.value),
  )

  first_match_swap :
      (a b : StoredCredential) (l : List StoredCredential)
      → same_secret b a ≡ false
      → first_match sha256 grant_type now p (a ∷ b ∷ l)
        ≡ first_match sha256 grant_type now p (b ∷ a ∷ l)
  unfolding first_match
  first_match_swap a b l apart = ground (arith, accepts_one a b)

  first_match_cons :
      (a : StoredCredential) (l r : List StoredCredential)
      → first_match sha256 grant_type now p l ≡ first_match sha256 grant_type now p r
      → first_match sha256 grant_type now p (a ∷ l) ≡ first_match sha256 grant_type now p (a ∷ r)
  unfolding first_match
  first_match_cons a l r e = cc

  first_match-perm :
      {l r : List StoredCredential}
      → Permᴰ l r
      → DistinctSecrets l
      → first_match sha256 grant_type now p l ≡ first_match sha256 grant_type now p r
  first_match-perm Permᴰ.nil h = refl
  first_match-perm (Permᴰ.cons {a} {b} {l₁} {l₂} e d) (apart, rest) =
      first_match_cons a l₁ l₂ (first_match-perm d rest)
      ∙ ap (λ x. first_match sha256 grant_type now p (x ∷ l₂)) e
  first_match-perm (Permᴰ.swap {a} {b} {a'} {b'} {l} e f) ((ba, la), (lb, rest)) =
      first_match_swap a b l ba
      ∙ (ap (λ x. first_match sha256 grant_type now p (x ∷ a ∷ l)) f
          ∙ ap (λ x. first_match sha256 grant_type now p (a' ∷ x ∷ l)) e)
  first_match-perm (Permᴰ.trans d e) h =
      first_match-perm d h ∙ first_match-perm e (DistinctSecrets-perm d h)

any-false :
    (stored : StoredCredential) (records : List StoredCredential)
    → any (λ existing. same_secret existing stored) records ≡ false
    → All (λ x. same_secret x stored ≡ false) records
any-false stored [] h = tt
any-false stored (r ∷ records) h = (ground arith, any-false stored records (ground arith))

revoke_where-All :
    (test : StoredCredential → Bool) (at : Time) (x : StoredCredential)
    (records : List StoredCredential)
    → All (λ y. same_secret y x ≡ false) records
    → All
        (λ y. same_secret y (if test x then revoked at x else x) ≡ false)
        (revoke_where test at records)
unfolding revoke_where same_secret
revoke_where-All test at x [] h = tt
revoke_where-All test at x (r ∷ records) (now, later) =
    (ground arith, revoke_where-All test at x records later)

revoke_where-DistinctSecrets :
    (test : StoredCredential → Bool) (at : Time) (records : List StoredCredential)
    → DistinctSecrets records
    → DistinctSecrets (revoke_where test at records)
unfolding revoke_where
revoke_where-DistinctSecrets test at [] h = tt
revoke_where-DistinctSecrets test at (r ∷ records) (apart, rest) =
    (revoke_where-All test at r records apart, revoke_where-DistinctSecrets test at records rest)

checked_revocation-DistinctSecrets :
    (cancelled : Option Error) (at : Time) (test : StoredCredential → Bool)
    (records : List StoredCredential)
    → DistinctSecrets records
    → DistinctSecrets (checked_revocation cancelled at records (revoke_where test at records)).1
checked_revocation-DistinctSecrets (some e) at test records h = h
checked_revocation-DistinctSecrets none at test records h = elim (Bool-cases (at == 0)) [
  | inl unset ↦ rw unset h
  | inr set ↦ rw set (revoke_where-DistinctSecrets test at records h)
]

save_credential-DistinctSecrets :
    (cancelled : Option Error) (prepared : Outcome StoredCredential)
    (records : List StoredCredential)
    → DistinctSecrets records
    → DistinctSecrets (save_credential cancelled prepared records).1
unfolding save_credential
save_credential-DistinctSecrets (some e) prepared records h = h
save_credential-DistinctSecrets none (err e) records h = h
save_credential-DistinctSecrets none (ok stored) records h =
    elim (Bool-cases (any (has_credential_id stored.credential_id) records)) [
      | inl taken ↦ rw taken h
      | inr free ↦ elim (Bool-cases (any (λ existing. same_secret existing stored) records)) [
        | inl known ↦ rw (free, known) h
        | inr fresh ↦ rw (free, fresh) (any-false stored records fresh, h)
      ]
    ]

pub after_calls-DistinctSecrets :
    (calls : List CredentialCall) (records : List StoredCredential)
    → DistinctSecrets records
    → DistinctSecrets (after_calls calls records)
unfolding after_calls after_call
after_calls-DistinctSecrets [] records h = h
after_calls-DistinctSecrets (saves cancelled prepared ∷ calls) records h =
    after_calls-DistinctSecrets calls _
      (save_credential-DistinctSecrets cancelled prepared records h)
after_calls-DistinctSecrets (revokes cancelled agent_did grant_type id at ∷ calls) records h =
    after_calls-DistinctSecrets calls _
      (checked_revocation-DistinctSecrets cancelled at _ records h)
after_calls-DistinctSecrets (revokes_type cancelled agent_did grant_type at ∷ calls) records h =
    after_calls-DistinctSecrets calls _
      (checked_revocation-DistinctSecrets cancelled at _ records h)

is_empty_list-perm : {l r : List Presentation} → Permᴰ l r → is_empty_list l ≡ is_empty_list r
is_empty_list-perm Permᴰ.nil = refl
is_empty_list-perm (Permᴰ.cons e d) = refl
is_empty_list-perm (Permᴰ.swap e f) = refl
is_empty_list-perm (Permᴰ.trans d e) = is_empty_list-perm d ∙ is_empty_list-perm e

module _ (sha256 : Text → Text) (grant_type : Text) (now : Time)
    (records : List StoredCredential) where
  match_cons :
      (p q : Presentation) (l r : List Presentation)
      → p ≡ q
      → is_empty_list l ≡ is_empty_list r
      → match_presentations sha256 grant_type (p ∷ l) now records
        ≡ match_presentations sha256 grant_type (q ∷ r) now records
  unfolding match_presentations
  match_cons p q [] [] e h = ap (λ x. first_match sha256 grant_type now x records) e
  match_cons p q [] (y ∷ r) e h = absurd (ground arith)
  match_cons p q (x ∷ l) [] e h = absurd (ground arith)
  match_cons p q (x ∷ l) (y ∷ r) e h = refl

  match_presentations-perm :
      {l r : List Presentation}
      → Permᴰ l r
      → match_presentations sha256 grant_type l now records
        ≡ match_presentations sha256 grant_type r now records
  unfolding match_presentations
  match_presentations-perm Permᴰ.nil = refl
  match_presentations-perm (Permᴰ.cons {a} {b} {l₁} {l₂} e d) =
      match_cons a b l₁ l₂ e (is_empty_list-perm d)
  match_presentations-perm (Permᴰ.swap e f) = refl
  match_presentations-perm (Permᴰ.trans d e) =
      match_presentations-perm d ∙ match_presentations-perm e

match_records-perm :
    (sha256 : Text → Text) (grant_type : Text) (now : Time) (presentations : List Presentation)
    {l r : List StoredCredential}
    → Permᴰ l r
    → DistinctSecrets l
    → match_presentations sha256 grant_type presentations now l
      ≡ match_presentations sha256 grant_type presentations now r
unfolding match_presentations
match_records-perm sha256 grant_type now [] d h = refl
match_records-perm sha256 grant_type now (p ∷ []) d h = first_match-perm sha256 grant_type now p d h
match_records-perm sha256 grant_type now (p ∷ q ∷ presentations) d h = refl

-- Whatever calls have made the store from an empty one, its answer to a request does not depend on
-- the order in which the records are visited: no two of them have one secret.
pub authenticate_credential-perm :
    (http : HeaderText) (sha256 : Text → Text) (cancelled : Option Error) (grant_type : Text)
    (headers : Headers) (now : Time) (calls : List CredentialCall) (visited : List StoredCredential)
    → Permᴰ (after_calls calls []) visited
    → authenticate_credential http sha256 cancelled grant_type headers now (after_calls calls [])
      ≡ authenticate_credential http sha256 cancelled grant_type headers now visited
unfolding authenticate_credential
authenticate_credential-perm http sha256 (some e) grant_type headers now calls visited d = refl
authenticate_credential-perm http sha256 none grant_type headers now calls visited d = ap ok (
    match_presentations-perm sha256 grant_type now (after_calls calls [])
      (collected_presentations-perm http headers grant_type d)
    ∙ match_records-perm sha256 grant_type now
        (collected_presentations http grant_type headers visited) d
        (after_calls-DistinctSecrets calls [] tt))
