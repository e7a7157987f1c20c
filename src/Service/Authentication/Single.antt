-- ===== src/Service/Authentication/Single.antt =====
-- The selected presentation is the only one that the request carries.
use aep_go.Prelude.{
  Bool, Bool-cases, List, Text, [], any, arith, false, inl, inr, refl, select, some, ◌++◌, ◌∷◌, ◌≡◌,
  ◌⊎◌,
}
use aep_go.Aep.Carriers.{standard_carrier, dedicated_carrier}
use aep_go.Service.Authentication.{
  select_authorization_presentation, is_recognized, dedicated_presentation, standard_presentation,
}
use aep_go.Service.Credentials.Presentations.{Headers, HeaderText, header_values}

-- All the values of the two headers that are recognized.
abbrev pub recognized_presentations : HeaderText → Headers → List Text
recognized_presentations http headers =
    select (is_recognized http dedicated_carrier) (header_values http headers dedicated_carrier)
    ++ select (is_recognized http standard_carrier) (header_values http headers standard_carrier)

select_none :
    (test : Text → Bool) (values : List Text) → any test values ≡ false → select test values ≡ []
select_none test [] h = refl
select_none test (v ∷ values) h = ground (arith, select_none test values)

standard_single :
    (recognized standard : List Text) (value : Text)
    → standard_presentation recognized standard ≡ some value
    → ((value ≡ []) × (recognized ≡ [])) ⊎ (recognized ≡ value ∷ [])
unfolding standard_presentation
standard_single [] standard value e = inl (ground arith, refl)
standard_single (v ∷ []) [] value e = absurd (ground arith)
standard_single (v ∷ []) (only ∷ []) value e = inr (ground arith)
standard_single (v ∷ []) (only ∷ more ∷ standard) value e = absurd (ground arith)
standard_single (v ∷ w ∷ others) standard value e = absurd (ground arith)

dedicated_single :
    (http : HeaderText) (dedicated standard : List Text) (value : Text)
    → dedicated_presentation http dedicated standard ≡ some value
    → let recognized =
        select (is_recognized http dedicated_carrier) dedicated
        ++ select (is_recognized http standard_carrier) standard in
      ((value ≡ []) × (recognized ≡ [])) ⊎ (recognized ≡ value ∷ [])
unfolding dedicated_presentation
dedicated_single http [] standard value e = standard_single _ standard value e
dedicated_single http (v ∷ []) standard value e =
    elim (Bool-cases (is_recognized http dedicated_carrier v)) [
      | inr unknown ↦ absurd (ground arith)
      | inl known ↦ elim (Bool-cases (any (is_recognized http standard_carrier) standard)) [
        | inl ambiguous ↦ absurd (ground arith)
        | inr clear ↦
            let none_else = select_none (is_recognized http standard_carrier) standard clear in
            inr (ground arith)
      ]
    ]
dedicated_single http (v ∷ w ∷ dedicated) standard value e = absurd (ground arith)

-- When the selection is valid, either nothing in the two authorization headers of the request is
-- recognized and nothing is selected, or exactly one of their values is, and that one is selected.
pub select_authorization_presentation-IsSingle :
    (http : HeaderText) (headers : Headers) (value : Text)
    → select_authorization_presentation http headers ≡ some value
    → ((value ≡ []) × (recognized_presentations http headers ≡ []))
      ⊎ (recognized_presentations http headers ≡ value ∷ [])
unfolding select_authorization_presentation
select_authorization_presentation-IsSingle http headers value e =
    dedicated_single http (header_values http headers dedicated_carrier)
      (header_values http headers standard_carrier) value e
