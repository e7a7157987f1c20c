-- ===== src/Service/Authentication.antt =====
-- service/authentication.go: which header field of a request is the one that authenticates it.
pub mod Single
use aep_go.Prelude.{
  Bool, List, Option, Text, [], any, bytes, err, false, if◌then◌else◌, map, none, not, ok, select,
  some, true, ℕ, ◌==◌, ◌∷◌,
}
use aep_go.Aep.Bytes.{cut}
use aep_go.Aep.Carriers.{
  bearer_scheme, parse_authorization, standard_carrier, basic_scheme, dedicated_carrier, aep_scheme,
}
use aep_go.Service.Credentials.Presentations.{HeaderText, header_values, Headers}

-- `err == nil` for `ParseProtectedResourceAuthorization`.
unfoldable pub is_recognized : HeaderText → (carrier value : Text) → Bool
is_recognized http carrier value = elim (parse_authorization http.to_lower value carrier) [
  | err e ↦ false
  | ok parsed ↦ true
]

-- The choice among the values of the header Authorization, when there is no dedicated header; the
-- first list has the recognized ones.
unfoldable pub standard_presentation : (recognized standard : List Text) → Option Text
standard_presentation [] standard = some []
standard_presentation (value ∷ []) (only ∷ []) = some value
standard_presentation (value ∷ others) standard = none

-- The checks of the values of the dedicated header.
unfoldable pub dedicated_presentation : HeaderText → (dedicated standard : List Text) → Option Text
dedicated_presentation http [] standard =
    standard_presentation (select (is_recognized http standard_carrier) standard) standard
dedicated_presentation http (value ∷ []) standard =
    if not (is_recognized http dedicated_carrier value)
    then none
    else if any (is_recognized http standard_carrier) standard
    then none
    else some value
dedicated_presentation http (value ∷ another ∷ values) standard = none

-- `selectAuthorizationPresentation`: `none` if the selection is not valid.
unfoldable pub select_authorization_presentation : HeaderText → Headers → Option Text
select_authorization_presentation http headers =
    dedicated_presentation http (header_values http headers dedicated_carrier)
      (header_values http headers standard_carrier)

-- `authorizationMethod`; the method of the scheme AEP is "jwt".
unfoldable pub authorization_method : HeaderText → (field : Text) → Text
unfolding cut
authorization_method http field =
    let scheme = (cut (map (λ (c : ℕ). if c == 9 then b' ' else c) field) b' ').0 in
    if http.equal_fold scheme aep_scheme
    then bytes "jwt"
    else if http.equal_fold scheme bearer_scheme
    then bytes "oauth-bearer"
    else if http.equal_fold scheme basic_scheme
    then bytes "basic"
    else []
