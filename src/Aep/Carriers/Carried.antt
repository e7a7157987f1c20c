-- ===== src/Aep/Carriers/Carried.antt =====
-- Which authorizations are rendered.
use aep_go.Prelude.{
  Text, [], all, false, if◌then◌else◌, inl, inr, is_empty, ok, refl, subst, sym, text_eq, true,
  ◌++◌, ◌∷◌, ◌≡◌, ◌≢◌, ◌⊎◌,
}
use aep_go.Aep.Bytes.{contains_byte}
use aep_go.Aep.Carriers.{
  render_authorization, is_visible, authorization_header, basic_scheme, is_credential_scheme,
  bearer_scheme, dedicated_carrier, aep_scheme, is_credential_token, standard_carrier,
  validate_authorization, ProtectedResourceAuthorization,
}

-- An authorization that can be carried: one of the three schemes, credentials of visible ASCII, and
-- a carrier that has a header; the carrier may be left out. On the dedicated carrier the credentials
-- have no comma.
pub record IsCarried (value : ProtectedResourceAuthorization) : Type 0 where
  pub scheme :
      (value.scheme ≡ aep_scheme) ⊎ ((value.scheme ≡ bearer_scheme) ⊎ (value.scheme ≡ basic_scheme))
  pub present : value.credentials ≢ []
  pub visible : all is_visible value.credentials ≡ true
  pub carrier :
      (value.carrier ≡ [])
      ⊎ ((value.carrier ≡ standard_carrier) ⊎ (value.carrier ≡ dedicated_carrier))
  pub unambiguous : value.carrier ≡ dedicated_carrier → contains_byte value.credentials b',' ≡ false

-- The header of the authorization: the standard one if its carrier is left out.
abbrev pub header_of : ProtectedResourceAuthorization → Text
header_of value = if is_empty value.carrier then standard_carrier else value.carrier

known_scheme :
    (scheme : Text)
    → (scheme ≡ aep_scheme) ⊎ ((scheme ≡ bearer_scheme) ⊎ (scheme ≡ basic_scheme))
    → is_credential_scheme scheme ≡ true
unfolding is_credential_scheme text_eq
known_scheme scheme (inl e) = rw e refl
known_scheme scheme (inr (inl e)) = rw e refl
known_scheme scheme (inr (inr e)) = rw e refl

header_of_carrier :
    (value : ProtectedResourceAuthorization)
    → (value.carrier ≡ [])
      ⊎ ((value.carrier ≡ standard_carrier) ⊎ (value.carrier ≡ dedicated_carrier))
    → authorization_header value.carrier ≡ ok (header_of value)
unfolding authorization_header text_eq
header_of_carrier value (inl e) =
    subst (λ c. authorization_header c ≡ ok (if is_empty c then standard_carrier else c)) (sym e)
      refl
header_of_carrier value (inr (inl e)) =
    subst (λ c. authorization_header c ≡ ok (if is_empty c then standard_carrier else c)) (sym e)
      refl
header_of_carrier value (inr (inr e)) =
    subst (λ c. authorization_header c ≡ ok (if is_empty c then standard_carrier else c)) (sym e)
      refl

pub standard_differs : standard_carrier ≢ dedicated_carrier
standard_differs e = cc e

-- An authorization that can be carried is rendered.
pub renders :
    (value : ProtectedResourceAuthorization)
    → IsCarried value
    → render_authorization value ≡ ok (header_of value, value.scheme ++ (b' ' ∷ value.credentials))
unfolding render_authorization validate_authorization is_credential_token
renders value h =
    let known = known_scheme value.scheme h.scheme in
    let named = header_of_carrier value h.carrier in
    let filled : is_empty value.credentials ≡ false = not_empty value.credentials h.present in
    let seen = h.visible in rw (filled, seen, known, named) refl
  where
    not_empty : (text : Text) → text ≢ [] → is_empty text ≡ false
    not_empty [] h = absurd (h refl)
    not_empty (c ∷ text) h = refl
