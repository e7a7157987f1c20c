-- ===== src/Aep/OpenApi.antt =====
-- openapi.go: which OpenAPI path template a request matches.
pub mod Best
use aep_go.Prelude.{
  Bool, List, Option, Outcome, Text, [], bytes, err, error, fail_if, false, if◌then◌else◌, is_empty,
  length, ltb, none, not, ok, some, text_eq, true, ℕ, ◌&&◌, ◌==◌, ◌>>◌, ◌||◌, ◌∷◌,
}
use aep_go.Aep.Bytes.{but_last, contains_byte, split, ends_with, has_prefix}

-- `OpenAPIPathMatchOptions`
pub record PathMatchOptions : Type 0 where
  pub method : Text
  pub path : Text
  pub trailing_slash : Text

-- `OpenAPIPathMatch`
pub record PathMatch : Type 0 where
  pub method : Text
  pub template : Text

abbrev without_slash : Text → Text
without_slash [] = []
without_slash (c ∷ text) = if c == b'/' then text else c ∷ text

-- `openAPIPathSegments`
unfoldable pub path_segments : (path trailing_slash : Text) → List Text
unfolding text_eq split
path_segments path trailing_slash =
    let trimmed =
      if text_eq trailing_slash (bytes "equivalent")
        && not (text_eq path (bytes "/"))
        && ends_with path b'/'
      then but_last path
      else path in
    split (without_slash trimmed) b'/'

-- The segment is a parameter in braces.
abbrev pub is_parameter : Text → Bool
is_parameter segment =
    has_prefix segment (bytes "{") && ends_with segment b'}' && ltb 2 (length segment)

abbrev pub scored : ℕ → Option Text → Option Text
scored c none = none
scored c (some score) = some (c ∷ score)

-- The score of a template against the segments of the request, `none` if it does not match; the
-- loop over the segments, with the comparison of the lengths before it.
unfoldable pub specificity : (template request : List Text) → Option Text
unfolding text_eq has_prefix
specificity [] [] = some []
specificity [] (wanted ∷ request) = none
specificity (segment ∷ template) [] = none
specificity (segment ∷ template) (wanted ∷ request) =
    let rest = specificity template request in
    if is_parameter segment
    then if is_empty wanted then none else scored b'0' rest
    else if text_eq segment wanted
    then scored b'1' rest
    else none

-- `>` on strings.
unfoldable pub text_gt : Text → Text → Bool
text_gt [] b = false
text_gt (c ∷ a) [] = true
text_gt (c ∷ a) (d ∷ b) = ltb d c || c == d && text_gt a b

-- The variables of the loop over the templates.
pub record Search : Type 0 where
  pub best : Text
  pub best_specificity : Text
  pub ambiguous : Bool

-- One turn of the loop for a template with the score.
unfoldable pub after_template : Search → (template : Text) → Option Text → Search
unfolding text_gt text_eq
after_template search template none = search
after_template search template (some score) =
    if is_empty search.best || text_gt score search.best_specificity
    then record { best = template; best_specificity = score; ambiguous = false }
    else if text_eq score search.best_specificity
    then record search { ambiguous = true }
    else search

unfoldable pub after_templates :
    (score : Text → Option Text) → (templates : List Text) → Search → Search
unfolding after_template
after_templates score [] search = search
after_templates score (template ∷ templates) search =
    after_templates score templates (after_template search template (score template))

abbrev pub new_search : Search
new_search = record { best = []; best_specificity = []; ambiguous = false }

-- The score of a template for a request.
abbrev pub template_score : PathMatchOptions → (template : Text) → Option Text
template_score options template =
    specificity (path_segments template options.trailing_slash)
      (path_segments options.path options.trailing_slash)

-- What follows the loop.
unfoldable pub search_result : (method : Text) → Search → Outcome PathMatch
search_result method search =
    if is_empty search.best
    then err (error "OpenAPI operation is not documented")
    else if search.ambiguous
    then err (error "ambiguous OpenAPI path templates")
    else ok (record { method = method; template = search.best })

-- The checks of the options; `method` is in upper case.
abbrev pub checked_target : (method : Text) → PathMatchOptions → Outcome (Unit {0})
checked_target method options =
    fail_if (is_empty method || is_empty options.path || contains_byte options.path b'?')
      (error "invalid OpenAPI operation target")
    >> fail_if
        (not (text_eq options.trailing_slash (bytes "strict"))
          && not (text_eq options.trailing_slash (bytes "equivalent")))
        (error "invalid OpenAPI trailing-slash policy")

-- `MatchOpenAPIPath`; `to_upper` is `strings.ToUpper`.
unfoldable pub match_open_api_path :
    (to_upper : Text → Text) → (templates : List Text) → PathMatchOptions → Outcome PathMatch
match_open_api_path to_upper templates options =
    let method = to_upper options.method in
    checked_target method options
    >> search_result method (after_templates (template_score options) templates new_search)
