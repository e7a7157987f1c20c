-- ===== src/Platform/AgentDids/Escaped.antt =====
-- Different identifiers give different Agent DIDs.
use aep_go.Prelude.{
  All, Bool-cases, List, Option, Text, [], ap, append_assoc, arith, bytes, if◌then◌else◌, inl, inr,
  is_empty, map, ok, refl, sym, ℕ, ◌%◌, ◌++◌, ◌/◌, ◌<◌, ◌∙◌, ◌∷◌, ◌≡◌,
}
use aep_go.Platform.AgentDids.{
  is_unreserved, escape_did_component, hex_digit, prefix_parts, join_colon, ParsedUrl,
  default_did_path_prefix, create_service_scoped_agent_did,
}

-- What a Go string can hold.
abbrev pub AreBytes : Text → Type 0
AreBytes text = All (λ c. c < 256) text

hex_digit_injective : (a b : ℕ) → a < 16 → b < 16 → hex_digit a ≡ hex_digit b → a ≡ b
hex_digit_injective a b h g e = ground arith

cons_injective : (a b : ℕ) (s t : Text) → a ∷ s ≡ b ∷ t → (a ≡ b) × (s ≡ t)
cons_injective a b s t e = (cc, cc)

abbrev escape_byte : ℕ → Text → Text
escape_byte c rest =
    if is_unreserved c then c ∷ rest else b'%' ∷ hex_digit (c / 16) ∷ hex_digit (c % 16) ∷ rest

escape_byte_injective :
    (c d : ℕ) (s t : Text)
    → c < 256
    → d < 256
    → escape_byte c s ≡ escape_byte d t
    → (c ≡ d) × (s ≡ t)
escape_byte_injective c d s t h g e = elim (Bool-cases (is_unreserved c)) [
  | inl plain ↦ elim (Bool-cases (is_unreserved d)) [
    | inl plain' ↦ cons_injective c d s t (ground arith)
    | inr escaped' ↦ absurd (ground arith)
  ]
  | inr escaped ↦ elim (Bool-cases (is_unreserved d)) [
    | inl plain' ↦ absurd (ground arith)
    | inr escaped' ↦
        let high =
          hex_digit_injective (c / 16) (d / 16) (omega arith) (omega arith) (ground arith) in
        let low =
          hex_digit_injective (c % 16) (d % 16) (omega arith) (omega arith) (ground arith) in
        (omega arith, ground arith)
  ]
]

escape_injective :
    (a b : Text) → AreBytes a → AreBytes b → escape_did_component a ≡ escape_did_component b → a ≡ b
unfolding escape_did_component
escape_injective [] [] h g e = refl
escape_injective [] (d ∷ b) h g e = absurd (ground arith)
escape_injective (c ∷ a) [] h g e = absurd (ground arith)
escape_injective (c ∷ a) (d ∷ b) (hc, ha) (gd, gb) e =
    let (same, rest) =
      escape_byte_injective c d (escape_did_component a) (escape_did_component b) hc gd e in
    cc (same, escape_injective a b ha gb rest)

append_cancel : (s x y : Text) → s ++ x ≡ s ++ y → x ≡ y
append_cancel [] x y e = e
append_cancel (c ∷ s) x y e = append_cancel s x y (cons_injective c c (s ++ x) (s ++ y) e).1

join-append :
    (p : Text) (ps : List Text) (x : Text)
    → join_colon (p ∷ (ps ++ (x ∷ []))) ≡ join_colon (p ∷ ps) ++ (b':' ∷ x)
join-append p [] x = refl
join-append p (q ∷ ps) x =
    ap (λ t. p ++ (b':' ∷ t)) (join-append q ps x)
    ∙ sym (append_assoc p (b':' ∷ join_colon (q ∷ ps)) (b':' ∷ x))

-- One Platform gives different Agent DIDs to identities with different DID identifiers: with one
-- host and path prefix, two identifiers for which the same DID is made are the same string.
pub create_service_scoped_agent_did_injective :
    (parse_url : Text → Option ParsedUrl) (host path_prefix a b did : Text)
    → AreBytes a
    → AreBytes b
    → create_service_scoped_agent_did parse_url host path_prefix a ≡ ok did
    → create_service_scoped_agent_did parse_url host path_prefix b ≡ ok did
    → a ≡ b
unfolding create_service_scoped_agent_did
create_service_scoped_agent_did_injective parse_url host path_prefix a b did h g e e' =
    let front =
      bytes "web"
      ∷ escape_did_component host
      ∷ map escape_did_component
          (prefix_parts (if is_empty path_prefix then default_did_path_prefix else path_prefix)) in
    let first : did ≡ join_colon (bytes "did" ∷ (front ++ (escape_did_component a ∷ []))) =
      ground arith in
    let second : did ≡ join_colon (bytes "did" ∷ (front ++ (escape_did_component b ∷ []))) =
      ground arith in
    let tails =
      append_cancel (join_colon (bytes "did" ∷ front)) (b':' ∷ escape_did_component a)
        (b':' ∷ escape_did_component b)
        (sym (join-append (bytes "did") front (escape_did_component a))
          ∙ (sym first ∙ (second ∙ join-append (bytes "did") front (escape_did_component b)))) in
    escape_injective a b h g
      (cons_injective b':' b':' (escape_did_component a) (escape_did_component b) tails).1
