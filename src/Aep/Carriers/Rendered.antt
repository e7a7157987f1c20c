-- ===== src/Aep/Carriers/Rendered.antt =====
-- A rendered header field is read back.
use aep_go.Prelude.{
  Bool, Bool-cases, Outcome, Text, [], all, arith, bind-ok, bytes, check-ok, false, if◌then◌else◌,
  inl, inr, is_empty, not, ok, refl, subst, text_eq, text_eq_sound, true, ℕ, ◌&&◌, ◌++◌, ◌>>=◌,
  ◌||◌, ◌∷◌, ◌≡◌, ◌⊎◌,
}
use aep_go.Aep.Bytes.{contains_byte}
use aep_go.Aep.Carriers.{
  trim_left, cut_blank, bearer_scheme, is_visible, aep_scheme, is_blank, basic_scheme, trim_right,
  dedicated_carrier, validate_authorization, ProtectedResourceAuthorization, parse_presentation,
  is_credential_token, canonical_credential_scheme, is_credential_scheme, parse_authorization,
  render_authorization, authorization_header, standard_carrier,
}
use aep_go.Aep.Carriers.Carried.{standard_differs, header_of, renders, IsCarried}

-- What the source relies on of `strings.ToLower`.
pub record LowersSchemes (to_lower : Text → Text) : Type 0 where
  pub aep : to_lower aep_scheme ≡ bytes "aep"
  pub bearer : to_lower bearer_scheme ≡ bytes "bearer"
  pub basic : to_lower basic_scheme ≡ bytes "basic"

all_visible_blank :
    (text : Text) → all is_visible text ≡ true → all (λ c. not (is_blank c)) text ≡ true
all_visible_blank [] h = refl
all_visible_blank (c ∷ text) h = ground (arith, all_visible_blank text)

cut_blank_word :
    (word rest : Text)
    → all (λ c. not (is_blank c)) word ≡ true
    → cut_blank (word ++ (b' ' ∷ rest)) ≡ (word, b' ' ∷ rest)
unfolding cut_blank
cut_blank_word [] rest h = refl
cut_blank_word (c ∷ word) rest h = ground (arith, cut_blank_word word rest)

trim_right_word : (word : Text) → all (λ c. not (is_blank c)) word ≡ true → trim_right word ≡ word
unfolding trim_right
trim_right_word [] h = refl
trim_right_word (c ∷ word) h = ground (arith, trim_right_word word)

trim_left_word : (word : Text) → all (λ c. not (is_blank c)) word ≡ true → trim_left word ≡ word
unfolding trim_left
trim_left_word [] h = refl
trim_left_word (c ∷ word) h = ground arith

contains_byte-append :
    (text rest : Text) (b : ℕ)
    → contains_byte text b ≡ false
    → contains_byte rest b ≡ false
    → contains_byte (text ++ rest) b ≡ false
unfolding contains_byte
contains_byte-append [] rest b h g = g
contains_byte-append (c ∷ text) rest b h g = ground (arith, contains_byte-append text rest b)

scheme-cases :
    (scheme : Text)
    → is_credential_scheme scheme ≡ true
    → (scheme ≡ aep_scheme) ⊎ ((scheme ≡ bearer_scheme) ⊎ (scheme ≡ basic_scheme))
unfolding is_credential_scheme
scheme-cases scheme h = elim (Bool-cases (text_eq scheme aep_scheme)) [
  | inl aep ↦ inl (text_eq_sound _ _ aep)
  | inr other ↦ elim (Bool-cases (text_eq scheme bearer_scheme)) [
    | inl bearer ↦ inr (inl (text_eq_sound _ _ bearer))
    | inr another ↦ inr (inr (text_eq_sound _ _ (ground arith)))
  ]
]

contains_after_blank :
    (text : Text) → contains_byte text b',' ≡ false → contains_byte (b' ' ∷ text) b',' ≡ false
unfolding contains_byte
contains_after_blank text h = h

token_solid :
    (credentials : Text)
    → is_credential_token credentials ≡ true
    → all (λ c. not (is_blank c)) credentials ≡ true
unfolding is_credential_token
token_solid credentials token = all_visible_blank credentials (ground arith)

authorization_header_again :
    (carrier header : Text)
    → authorization_header carrier ≡ ok header
    → (authorization_header header ≡ ok header) × (is_empty header ≡ false)
unfolding authorization_header text_eq
authorization_header_again carrier header e =
    elim (Bool-cases (is_empty carrier || text_eq carrier standard_carrier)) [
      | inl standard ↦
          let same : standard_carrier ≡ header = ground arith in
          subst (λ h. (authorization_header h ≡ ok h) × (is_empty h ≡ false)) same (refl, refl)
      | inr other ↦ elim (Bool-cases (text_eq carrier dedicated_carrier)) [
        | inl dedicated ↦
            let same : dedicated_carrier ≡ header = ground arith in
            subst (λ h. (authorization_header h ≡ ok h) × (is_empty h ≡ false)) same (refl, refl)
        | inr unknown ↦ absurd (ground arith)
      ]
    ]

rendered_parts :
    (value : ProtectedResourceAuthorization) (header field : Text)
    → render_authorization value ≡ ok (header, field)
    → (is_credential_scheme value.scheme ≡ true)
      × (is_credential_token value.credentials ≡ true)
      × (authorization_header value.carrier ≡ ok header)
      × (field ≡ value.scheme ++ (b' ' ∷ value.credentials))
unfolding render_authorization validate_authorization
rendered_parts value header field e =
    let (valid, rest) =
      check-ok (validate_authorization value)
        (authorization_header value.carrier >>= λ h.
          ok (h, value.scheme ++ (b' ' ∷ value.credentials)))
        e in
    let (h, found, pair) =
      bind-ok (authorization_header value.carrier)
        (λ h. ok (h, value.scheme ++ (b' ' ∷ value.credentials))) rest in
    (ground arith, ground arith, ground arith, ground arith)

module _ (to_lower : Text → Text) (lowers : LowersSchemes to_lower) where
  -- A scheme is read as itself, and it has neither a blank nor a comma.
  scheme_read :
      (scheme : Text)
      → is_credential_scheme scheme ≡ true
      → (canonical_credential_scheme to_lower scheme ≡ scheme)
        × (is_empty scheme ≡ false)
        × (all (λ c. not (is_blank c)) scheme ≡ true)
        × (contains_byte scheme b',' ≡ false)
  unfolding canonical_credential_scheme contains_byte text_eq
  scheme_read scheme h = elim (scheme-cases scheme h) [
    | inl e ↦ rw (e, lowers.aep) (refl, refl, refl, refl)
    | inr (inl e) ↦ rw (e, lowers.bearer) (refl, refl, refl, refl)
    | inr (inr e) ↦ rw (e, lowers.basic) (refl, refl, refl, refl)
  ]

  presentation_read :
      (carrier scheme credentials : Text)
      → is_credential_scheme scheme ≡ true
      → is_credential_token credentials ≡ true
      → parse_presentation to_lower carrier (scheme, b' ' ∷ credentials)
        ≡ ok (record { carrier = carrier; scheme = scheme; credentials = credentials })
  unfolding parse_presentation trim_left
  presentation_read carrier scheme credentials known token =
      let (canonical, named, word, _) = scheme_read scheme known in
      let solid = token_solid credentials token in
      rw
        (
          canonical,
          named,
          trim_left_word credentials solid,
          trim_right_word credentials solid,
          token,
        )
        refl

  reads_rendered :
      (value : ProtectedResourceAuthorization) (header field : Text)
      → (text_eq header dedicated_carrier ≡ true → contains_byte value.credentials b',' ≡ false)
      → render_authorization value ≡ ok (header, field)
      → parse_authorization to_lower field header
        ≡ ok (record { carrier = header; scheme = value.scheme; credentials = value.credentials })
  unfolding parse_authorization
  reads_rendered value header field unambiguous e =
      let (known, token, named, shape) = rendered_parts value header field e in
      let (again, present) = authorization_header_again value.carrier header named in
      let (canonical, _, word, comma) = scheme_read value.scheme known in
      let comma_free : text_eq header dedicated_carrier ≡ true
          → contains_byte (value.scheme ++ (b' ' ∷ value.credentials)) b',' ≡ false =
        λ dedicated.
          contains_byte-append value.scheme (b' ' ∷ value.credentials) b',' comma
            (contains_after_blank value.credentials (unambiguous dedicated)) in
      let read = presentation_read header value.scheme value.credentials known token in
      rw (present, again, shape, cut_blank_word value.scheme value.credentials word, read)
        (guard _ _ (text_eq header dedicated_carrier)
          (contains_byte (value.scheme ++ (b' ' ∷ value.credentials)) b',') comma_free)
    where
      guard :
          (failure result : Outcome ProtectedResourceAuthorization) (t c : Bool)
          → (t ≡ true → c ≡ false)
          → (if t && c then failure else result) ≡ result
      guard failure result t c h = ground arith

  -- An authorization that can be carried is rendered, and the rendered field, read for the header
  -- that it is rendered for, gives back the scheme and the credentials.
  pub parse-render :
      (value : ProtectedResourceAuthorization)
      → IsCarried value
      → (field : Text) × (render_authorization value ≡ ok (header_of value, field))
        × (parse_authorization to_lower field (header_of value)
            ≡ ok (record {
              carrier = header_of value;
              scheme = value.scheme;
              credentials = value.credentials;
            }))
  parse-render value h = (
    value.scheme ++ (b' ' ∷ value.credentials),
    renders value h,
    reads_rendered value (header_of value) (value.scheme ++ (b' ' ∷ value.credentials))
        (λ e. h.unambiguous (carrier_of value (text_eq_sound _ _ e))) (renders value h),
  )
    where
      carrier_of :
          (v : ProtectedResourceAuthorization)
          → header_of v ≡ dedicated_carrier
          → v.carrier ≡ dedicated_carrier
      carrier_of v e = elim (Bool-cases (is_empty v.carrier)) [
        | inl missing ↦ absurd (standard_differs (ground arith))
        | inr given ↦ ground arith
      ]
