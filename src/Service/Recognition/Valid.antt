-- ===== src/Service/Recognition/Valid.antt =====
-- For whom and for when a recognized assertion was made.
use aep_go.Prelude.{
  Bool, Option, Option-cases, Text, ap, arith, bytes, contains, inl, inr, none, ok, refl, some,
  text_eq, text_eq_sound, true, ℕ, ◌&&◌, ◌<◌, ◌^◌, ◌∙◌, ◌≡◌,
}
use aep_go.Prelude.Int64.{
  +ℤ_parts, -ℤ_parts, IsInt64, add64, leb_ℤ, ltb_ℤ, max_int64, min_int64, pos, sub64, ℤ, ◌+ℤ◌, ◌-ℤ◌,
  ◌<ℤ◌, ◌≤ℤ◌,
}
use aep_go.Aep.Assertion.{
  whole_seconds, expiry_deadline, issued_deadline, validate_client_assertion_claims,
}
use aep_go.Aep.Bytes.{cut}
use aep_go.Aep.Codec.{JwtHeader, Stdlib}
use aep_go.Aep.Types.{
  AssertionOperation, unix, Time, ClientAssertionClaims, operation_eq, operation_text,
}
use aep_go.Service.Config.{Service, Core}
use aep_go.Service.Recognition.{
  header_identifies, equals_header, within_window, valid_assertion, authenticate_assertion,
}
use aep_go.Aep.Assertion.Window.{
  int64_difference, expiry_deadline_exact, issued_deadline_exact, int64_sum,
}
use aep_go.Service.Recognition.Once.{authenticate_assertion-IsRecognized, clocked}
use aep_go.Service.Types.{CommandOptions}

same_text_of :
    (a b : AssertionOperation) → operation_eq a b ≡ true → operation_text a ≡ operation_text b
unfolding operation_eq
same_text_of a b h = text_eq_sound (operation_text a) (operation_text b) h

equals_header_sound :
    (value : Option Text) (test : Text → Bool)
    → equals_header value test ≡ true
    → (text : Text) × (value ≡ some text) × (test text ≡ true)
equals_header_sound none test h = absurd (ground arith)
equals_header_sound (some text) test h = (text, refl, h)

and-parts :
    (a b c d e : Bool)
    → (a && b && c && d && e) ≡ true
    → (a ≡ true) × (b ≡ true) × (c ≡ true) × (d ≡ true) × (e ≡ true)
and-parts a b c d e h = (ground arith, ground arith, ground arith, ground arith, ground arith)

-- The tests of the window on 64-bit times say what they say of unbounded integers.
lifetime_exact :
    (issued expires : ℤ) (maximum : ℕ)
    → IsInt64 issued
    → maximum < 2 ^ 63
    → leb_ℤ issued (sub64 max_int64 (pos maximum)) ≡ true
    → leb_ℤ expires (add64 issued (pos maximum)) ≡ true
    → expires ≤ℤ issued +ℤ pos maximum
lifetime_exact issued expires maximum hi hm guarded bounded = ground (
  arith,
  int64_difference max_int64 maximum,
  -ℤ_parts max_int64 (pos maximum),
  int64_sum issued maximum,
  +ℤ_parts issued (pos maximum),
)

begun_exact :
    (now issued : ℤ) (skew : ℕ)
    → IsInt64 now
    → IsInt64 issued
    → skew < 2 ^ 63
    → leb_ℤ issued (issued_deadline now skew) ≡ true
    → issued ≤ℤ now +ℤ pos skew
begun_exact now issued skew hn hi hs h =
    ground (arith, issued_deadline_exact now issued skew hn hi hs)

unexpired_exact :
    (now expires : ℤ) (skew : ℕ)
    → IsInt64 now
    → IsInt64 expires
    → min_int64 <ℤ expires
    → skew < 2 ^ 63
    → ltb_ℤ (expiry_deadline now skew) expires ≡ true
    → now -ℤ pos skew <ℤ expires
unexpired_exact now expires skew hn he above hs h =
    ground (arith, expiry_deadline_exact now expires skew hn he above hs)

module _ {W : Type 0} (lib : Stdlib) (service : Service W) where
  -- The limits of the Service in whole seconds, which fit into 64 bits.
  abbrev pub maximum_seconds : ℕ
  maximum_seconds = whole_seconds service.maximum_lifetime

  abbrev pub skew_seconds : ℕ
  skew_seconds = whole_seconds service.clock_skew

  -- The header of the assertion names an algorithm of the Service, the type JWT, and a key of the
  -- agent: the part of the key's name before "#" is the agent's DID.
  pub record HasHeader (assertion agent_did : Text) : Type 0 where
    pub header : JwtHeader
    pub decoded : lib.decode_jwt assertion ≡ some header
    pub algorithm : Text
    pub named : header.algorithm ≡ some algorithm
    pub supported : contains service.signing_algorithms algorithm ≡ true
    pub typed : header.type_value ≡ some (bytes "JWT")
    pub key_id : Text
    pub keyed : header.key_id ≡ some key_id
    pub same_agent : (cut key_id b'#').0 ≡ agent_did

  -- The claims are the agent's own, for this Service, operation and resource, and for a time that
  -- has come and is not over, up to the clock skew, and is no longer than the Service allows.
  pub record IsMadeFor (claims : ClientAssertionClaims) (operation : AssertionOperation)
      (resource : Text) (now : ℤ) : Type 0 where
    pub own : claims.issuer ≡ claims.subject
    pub audience : claims.audience ≡ service.service_did
    pub same_operation : operation_text claims.operation ≡ operation_text operation
    pub same_resource : claims.resource ≡ resource
    pub lasting : claims.issued_at <ℤ claims.expires_at
    pub bounded : claims.expires_at ≤ℤ claims.issued_at +ℤ pos maximum_seconds
    pub begun : claims.issued_at ≤ℤ now +ℤ pos skew_seconds
    pub unexpired : now -ℤ pos skew_seconds <ℤ claims.expires_at

  header_identifies-HasHeader :
      (assertion subject : Text)
      → header_identifies lib service assertion subject ≡ true
      → HasHeader assertion subject
  unfolding header_identifies
  header_identifies-HasHeader assertion subject h = elim (Option-cases (lib.decode_jwt assertion)) [
    | inl missing ↦ absurd (ground arith)
    | inr (header, decoded) ↦
        let (algorithm, named, supported) =
          equals_header_sound header.algorithm (contains service.signing_algorithms)
            (ground arith) in
        let (kind, of_kind, is_jwt) =
          equals_header_sound header.type_value (λ t. text_eq t (bytes "JWT")) (ground arith) in
        let (key_id, keyed, same) =
          equals_header_sound header.key_id (λ k. text_eq (cut k b'#').0 subject) (ground arith) in
        record {
          header = header;
          decoded = decoded;
          algorithm = algorithm;
          named = named;
          supported = supported;
          typed = of_kind ∙ ap some (text_eq_sound kind (bytes "JWT") is_jwt);
          key_id = key_id;
          keyed = keyed;
          same_agent = text_eq_sound (cut key_id b'#').0 subject same;
        }
  ]

  within_window_exact :
      (claims : ClientAssertionClaims) (now : Time)
      → IsInt64 claims.issued_at
      → IsInt64 claims.expires_at
      → IsInt64 (unix now)
      → maximum_seconds < 2 ^ 63
      → skew_seconds < 2 ^ 63
      → within_window lib service claims now ≡ true
      → (claims.issued_at <ℤ claims.expires_at)
        × (claims.expires_at ≤ℤ claims.issued_at +ℤ pos maximum_seconds)
        × (claims.issued_at ≤ℤ unix now +ℤ pos skew_seconds)
        × (unix now -ℤ pos skew_seconds <ℤ claims.expires_at)
  unfolding within_window
  within_window_exact claims now hi he hn hm hs h =
      let skew = skew_seconds in
      let lasting : claims.issued_at <ℤ claims.expires_at = ground arith in
      let above : min_int64 <ℤ claims.expires_at = omega (arith, lasting, hi.0) in
      let parts =
        and-parts (ltb_ℤ claims.issued_at claims.expires_at)
          (leb_ℤ claims.issued_at (sub64 max_int64 (pos maximum_seconds)))
          (leb_ℤ claims.expires_at (add64 claims.issued_at (pos maximum_seconds)))
          (leb_ℤ claims.issued_at (issued_deadline (unix now) skew))
          (ltb_ℤ (expiry_deadline (unix now) skew) claims.expires_at) h in
      (
        lasting,
        lifetime_exact claims.issued_at claims.expires_at maximum_seconds hi hm parts.1 parts.2,
        begun_exact (unix now) claims.issued_at skew hn hi hs parts.3,
        unexpired_exact (unix now) claims.expires_at skew hn he above hs parts.4,
      )

  valid_assertion-IsMadeFor :
      (assertion : Text) (claims : ClientAssertionClaims) (operation : AssertionOperation)
      (resource : Text) (now : Time)
      → IsInt64 claims.issued_at
      → IsInt64 claims.expires_at
      → IsInt64 (unix now)
      → maximum_seconds < 2 ^ 63
      → skew_seconds < 2 ^ 63
      → valid_assertion lib service assertion claims operation resource now ≡ true
      → IsMadeFor claims operation resource (unix now) × HasHeader assertion claims.subject
  unfolding valid_assertion
  valid_assertion-IsMadeFor assertion claims operation resource now hi he hn hm hs valid =
      let issues =
        validate_client_assertion_claims lib.parse_url service.allow_insecure_loopback claims in
      let window : within_window lib service claims now ≡ true = ground arith in
      let header : header_identifies lib service assertion claims.subject ≡ true = ground arith in
      let (lasting, bounded, begun, unexpired) =
        within_window_exact claims now hi he hn hm hs window in
      (
        record {
          own = text_eq_sound claims.issuer claims.subject (ground arith);
          audience = text_eq_sound claims.audience service.service_did (ground arith);
          same_operation = same_text_of claims.operation operation (ground arith);
          same_resource = text_eq_sound claims.resource resource (ground arith);
          lasting = lasting;
          bounded = bounded;
          begun = begun;
          unexpired = unexpired;
        },
        header_identifies-HasHeader assertion claims.subject header,
      )

  -- An assertion is recognized only if its claims are the agent's own, for this Service, operation
  -- and resource and for the time of the call, up to the clock skew and for no longer than the
  -- Service allows, and its header names an algorithm of the Service, the type JWT and a key of the
  -- agent. The times are int64, and the two limits below 2^63 seconds.
  pub authenticate_assertion-IsMadeFor :
      (options : CommandOptions) (operation : AssertionOperation) (resource : Text)
      (claims : ClientAssertionClaims) (s : Core W)
      → IsInt64 claims.issued_at
      → IsInt64 claims.expires_at
      → IsInt64 (unix (clocked lib service s).0)
      → maximum_seconds < 2 ^ 63
      → skew_seconds < 2 ^ 63
      → (authenticate_assertion lib service options operation resource s).0 ≡ ok (some claims)
      → IsMadeFor claims operation resource (unix (clocked lib service s).0)
        × HasHeader options.client_assertion claims.subject
  authenticate_assertion-IsMadeFor options operation resource claims s hi he hn hm hs e =
      let now = (clocked lib service s).0 in
      let (_, recognized) =
        authenticate_assertion-IsRecognized lib service options operation resource claims s e in
      valid_assertion-IsMadeFor options.client_assertion claims operation resource now hi he hn hm
        hs recognized.valid
