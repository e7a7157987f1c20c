-- ===== src/Service/Credentials/Visits.antt =====
-- What a request presents does not depend on the order in which the stored records are visited.
use aep_go.Prelude.{
  Bool-cases, List, Text, append_assoc, arith, contains, false, if◌then◌else◌, inl, inr, not, refl,
  subst, sym, text_eq, text_eq_refl, text_eq_sound, ◌&&◌, ◌++◌, ◌||◌, ◌∙◌, ◌∷◌, ◌≡◌, ◌⊎◌,
}
use mathlib.Core.List.{Permᴰ}
use mathlib.Core.List.Permᴰ
use aep_go.Service.Credentials.{collected_presentations, credential_headers, StoredCredential}
use aep_go.Service.Credentials.Presentations.{
  api_key_type, HeaderText, api_key_presentations, all_api_key_presentations, Headers,
  credential_presentations,
}

contains-perm : {l r : List Text} (a : Text) → Permᴰ l r → contains l a ≡ contains r a
unfolding contains
contains-perm a Permᴰ.nil = refl
contains-perm a (Permᴰ.cons {a = x} {b = y} {l₁ = l₁} {l₂ = l₂} e d) =
    let rest = contains-perm a d in cc
contains-perm a (Permᴰ.swap {a = x} {b = y} {a' = x'} {b' = y'} {l = l} e f) =
    let swapped : (text_eq x a || (text_eq y a || contains l a))
        ≡ (text_eq y a || (text_eq x a || contains l a)) =
      ground arith in
    cc
contains-perm a (Permᴰ.trans d e) = contains-perm a d ∙ contains-perm a e

equal_lists {ℓ} : {A : Type ℓ} {l r : List A} → l ≡ r → Permᴰ l r
equal_lists {A} {l} e = subst (λ x. Permᴰ l x) e (Permᴰ.refl l)

text_eq-false_sym : (a b : Text) → text_eq a b ≡ false → text_eq b a ≡ false
text_eq-false_sym a b h = ground (arith, text_eq_sound b a, text_eq_refl a)

module _ (grant_type : Text) where
  -- The headers after one more record.
  abbrev with_header : StoredCredential → List Text → List Text
  with_header r rest =
      if text_eq r.grant_type grant_type && not (contains rest r.header)
      then r.header ∷ rest
      else rest

  with_header-perm :
      (r : StoredCredential) {l l' : List Text}
      → Permᴰ l l'
      → Permᴰ (with_header r l) (with_header r l')
  with_header-perm r {l} {l'} d =
      elim (Bool-cases (text_eq r.grant_type grant_type && not (contains l' r.header))) [
        | inl joined ↦ rw (contains-perm r.header d, joined) (Permᴰ.cons refl d)
        | inr kept ↦ rw (contains-perm r.header d, kept) d
      ]

  with_header-cases :
      (a b : StoredCredential) (l : List Text)
      → (with_header a (with_header b l) ≡ with_header b (with_header a l))
        ⊎ (with_header a (with_header b l) ≡ a.header ∷ b.header ∷ l)
          × (with_header b (with_header a l) ≡ b.header ∷ a.header ∷ l)
  unfolding contains
  with_header-cases a b l =
      elim (Bool-cases (text_eq a.grant_type grant_type && not (contains l a.header))) [
        | inr a_kept ↦ inl (ground arith)
        | inl a_added ↦
            elim (Bool-cases (text_eq b.grant_type grant_type && not (contains l b.header))) [
              | inr b_kept ↦ inl (ground arith)
              | inl b_added ↦ elim (Bool-cases (text_eq a.header b.header)) [
                | inl same ↦
                    let one : a.header ≡ b.header = text_eq_sound _ _ same in
                    inl (ground (arith, text_eq_refl a.header))
                | inr apart ↦
                    let apart' = text_eq-false_sym a.header b.header apart in
                    inr (ground arith, ground arith)
              ]
            ]
      ]

  with_header_swap :
      (a b : StoredCredential) (l : List Text)
      → Permᴰ (with_header a (with_header b l)) (with_header b (with_header a l))
  with_header_swap a b l = elim (with_header-cases a b l) [
    | inl same ↦ equal_lists same
    | inr (one, other) ↦
        subst (λ x. Permᴰ x (with_header b (with_header a l))) (sym one)
          (subst (λ x. Permᴰ (a.header ∷ b.header ∷ l) x) (sym other) (Permᴰ.swap refl refl))
  ]

  credential_headers-perm :
      {l r : List StoredCredential}
      → Permᴰ l r
      → Permᴰ (credential_headers grant_type l) (credential_headers grant_type r)
  unfolding credential_headers
  credential_headers-perm Permᴰ.nil = Permᴰ.nil
  credential_headers-perm (Permᴰ.cons {a} {b} {l₁} {l₂} e d) =
      subst
        (λ x.
          Permᴰ (credential_headers grant_type (a ∷ l₁)) (credential_headers grant_type (x ∷ l₂)))
        e (with_header-perm a (credential_headers-perm d))
  credential_headers-perm (Permᴰ.swap {a} {b} {a'} {b'} {l} e f) =
      subst
        (λ x.
          Permᴰ (credential_headers grant_type (a ∷ b ∷ l))
            (credential_headers grant_type (x ∷ b' ∷ l)))
        f
        (subst
          (λ x.
            Permᴰ (credential_headers grant_type (a ∷ b ∷ l))
              (credential_headers grant_type (b ∷ x ∷ l)))
          e (with_header_swap a b (credential_headers grant_type l)))
  credential_headers-perm (Permᴰ.trans d e) =
      Permᴰ.trans (credential_headers-perm d) (credential_headers-perm e)

append_swap {ℓ} : {A : Type ℓ} (a b l : List A) → Permᴰ (a ++ (b ++ l)) (b ++ (a ++ l))
append_swap a b l =
    subst (λ x. Permᴰ x (b ++ (a ++ l))) (append_assoc a b l)
      (subst (λ x. Permᴰ ((a ++ b) ++ l) x) (append_assoc b a l)
        (Permᴰ.append_right l (Permᴰ.append_comm a b)))

module _ (http : HeaderText) (headers : Headers) where
  all_api_key_presentations-perm :
      {l r : List Text}
      → Permᴰ l r
      → Permᴰ (all_api_key_presentations http headers l) (all_api_key_presentations http headers r)
  unfolding all_api_key_presentations
  all_api_key_presentations-perm Permᴰ.nil = Permᴰ.nil
  all_api_key_presentations-perm (Permᴰ.cons {a} {b} {l₁} {l₂} e d) =
      subst
        (λ x.
          Permᴰ (all_api_key_presentations http headers (a ∷ l₁))
            (all_api_key_presentations http headers (x ∷ l₂)))
        e
        (Permᴰ.append_left (api_key_presentations http headers a)
          (all_api_key_presentations-perm d))
  all_api_key_presentations-perm (Permᴰ.swap {a} {b} {a'} {b'} {l} e f) =
      subst
        (λ x.
          Permᴰ (all_api_key_presentations http headers (a ∷ b ∷ l))
            (all_api_key_presentations http headers (x ∷ b' ∷ l)))
        f
        (subst
          (λ x.
            Permᴰ (all_api_key_presentations http headers (a ∷ b ∷ l))
              (all_api_key_presentations http headers (b ∷ x ∷ l)))
          e
          (append_swap (api_key_presentations http headers a) (api_key_presentations http headers b)
            (all_api_key_presentations http headers l)))
  all_api_key_presentations-perm (Permᴰ.trans d e) =
      Permᴰ.trans (all_api_key_presentations-perm d) (all_api_key_presentations-perm e)

  pub collected_presentations-perm :
      (grant_type : Text) {l r : List StoredCredential}
      → Permᴰ l r
      → Permᴰ
          (collected_presentations http grant_type headers l)
          (collected_presentations http grant_type headers r)
  unfolding collected_presentations
  collected_presentations-perm grant_type d =
      Permᴰ.append_left (credential_presentations http grant_type headers)
        (elim (Bool-cases (text_eq grant_type api_key_type)) [
          | inl key ↦ rw key (all_api_key_presentations-perm (credential_headers-perm grant_type d))
          | inr other ↦ rw other Permᴰ.nil
        ])
