-- ===== src/Aep/OpenApiTests.antt =====
-- Runs of the matching of OpenAPI paths on concrete values.
use aep_go.Prelude.{List, Text, [], bytes, ok, refl, text_eq, ◌∷◌, ◌≡◌}
use aep_go.Aep.Bytes.{contains_byte}
use aep_go.Aep.OpenApi.{specificity, after_templates, search_result, path_segments}
use aep_go.Aep.OpenApi.{match_open_api_path, PathMatchOptions, template_score}
use aep_go.Aep.OpenApi.Best.{match_open_api_path-IsSole, IsSole}

abbrev toy_templates : List Text
toy_templates = bytes "/a/{x}" ∷ bytes "/a/b" ∷ bytes "/{y}/b" ∷ []

abbrev toy_target : PathMatchOptions
toy_target = record {
  method = bytes "GET";
  path = bytes "/a/b/";
  trailing_slash = bytes "equivalent";
}

-- The literal template wins over both templates with a parameter.
literal_wins :
    match_open_api_path (λ t. t) toy_templates toy_target
    ≡ ok (record { method = bytes "GET"; template = bytes "/a/b" })
unfolding match_open_api_path contains_byte text_eq search_result after_templates specificity
    path_segments
literal_wins = refl

match_open_api_path-IsSole_example :
    (bound : Text) × IsSole (template_score toy_target) toy_templates (bytes "/a/b") bound
match_open_api_path-IsSole_example =
    match_open_api_path-IsSole (λ t. t) toy_templates toy_target
      (record { method = bytes "GET"; template = bytes "/a/b" }) (refl, (refl, (refl, tt)))
      literal_wins

-- An empty template before it hides that a path is matched twice.
empty_hides :
    match_open_api_path
      (λ t. t)
      ([] ∷ bytes "/" ∷ [])
      (record { method = bytes "GET"; path = bytes "/"; trailing_slash = bytes "strict" })
    ≡ ok (record { method = bytes "GET"; template = bytes "/" })
unfolding match_open_api_path contains_byte text_eq search_result after_templates specificity
    path_segments
empty_hides = refl
