-- ===== src/Aep/CarrierTests.antt =====
-- Runs of the header fields of authorizations on concrete values.
use aep_go.Prelude.{Text, bytes, err, error, if◌then◌else◌, inl, inr, map, ok, refl, ℕ, ◌+◌, ◌≡◌}
use aep_go.Aep.Carriers.{
  validate_authorization, is_credential_scheme, canonical_credential_scheme, trim_left,
  authorization_header, is_credential_token, cut_blank, trim_right, parse_presentation,
}
use aep_go.Aep.Bytes.{contains_byte, is_upper}
use aep_go.Aep.Carriers.{
  render_authorization, ProtectedResourceAuthorization, parse_authorization, dedicated_carrier,
}
use aep_go.Aep.Carriers.Rendered.{LowersSchemes, parse-render}
use aep_go.Aep.Carriers.Carried.{IsCarried}

-- `strings.ToLower` on ASCII.
abbrev toy_lower : Text → Text
toy_lower text = map (λ (c : ℕ). if is_upper c then c + 32 else c) text

toy_lower-LowersSchemes : LowersSchemes toy_lower
toy_lower-LowersSchemes = record { aep = refl; bearer = refl; basic = refl }

abbrev toy_authorization : ProtectedResourceAuthorization
toy_authorization = record {
  carrier = bytes "AEP-Authorization";
  scheme = bytes "Bearer";
  credentials = bytes "a.b";
}

abbrev rendered_field : Text
rendered_field = bytes "Bearer a.b"

toy_authorization-IsCarried : IsCarried toy_authorization
unfolding contains_byte
toy_authorization-IsCarried = record {
  scheme = inr (inl refl);
  present = λ e. cc e;
  visible = refl;
  carrier = inr (inr refl);
  unambiguous = λ e. refl;
}

parse-render_example :
    (field : Text) × (render_authorization toy_authorization ≡ ok (dedicated_carrier, field))
    × (parse_authorization toy_lower field dedicated_carrier ≡ ok toy_authorization)
parse-render_example =
    parse-render toy_lower toy_lower-LowersSchemes toy_authorization toy_authorization-IsCarried

-- Blanks around the credentials are dropped, and the scheme is read in any case.
loose_field :
    parse_authorization toy_lower (bytes "bEARER   a.b ") dedicated_carrier ≡ ok toy_authorization
unfolding parse_authorization authorization_header contains_byte parse_presentation cut_blank
    canonical_credential_scheme is_credential_token trim_right trim_left
loose_field = refl

-- Credentials with a comma are rendered for the dedicated carrier, and not read back.
comma_rendered :
    render_authorization (record toy_authorization { credentials = bytes "a,b" })
    ≡ ok (dedicated_carrier, bytes "Bearer a,b")
unfolding render_authorization validate_authorization is_credential_token is_credential_scheme
    authorization_header
comma_rendered = refl

comma_refused :
    parse_authorization toy_lower (bytes "Bearer a,b") dedicated_carrier
    ≡ err (error "the dedicated authorization field is ambiguous")
unfolding parse_authorization authorization_header contains_byte
comma_refused = refl
