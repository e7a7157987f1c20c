-- ===== src/Aep/Assertion/Accepted.antt =====
-- What `VerifyClientAssertion` establishes about the claims that it returns.
use aep_go.Prelude.{
  Bool, List, Option, Option-cases, Outcome-cases, Text, [], ap, arith, false, if◌then◌else◌, inl,
  inr, ok, some, subst, sym, text_eq_sound, true, ℕ, ◌<◌, ◌==◌, ◌^◌, ◌∙◌, ◌≡◌, ◌≢◌,
}
use aep_go.Prelude.Int64.{
  IsInt64, leb_ℤ, ltb_ℤ, min_int64, pos, pos_part, ℤ, ◌+ℤ◌, ◌-ℤ◌, ◌<ℤ◌, ◌≤ℤ◌,
}
use aep_go.Aep.Types.{ClientAssertionClaims, Time, max_assertion_lifetime, unix}
use aep_go.Aep.Assertion.{
  is_authenticate, validate_client_assertion_claims, is_registered_operation,
  exceeds_assertion_lifetime, Url, key_id_identifies, issued_deadline, expiry_deadline,
  whole_seconds, VerifyOptions, Token, checked_claims, verify_client_assertion, resolved_key,
  algorithms_or_default,
}
use aep_go.Aep.Bytes.{cut}
use aep_go.Aep.Issues.{validation_result}
use aep_go.Aep.Assertion.Window.{
  expiry_deadline_exact, exceeds_assertion_lifetime_exact, issued_deadline_exact,
}

-- The part of the structural checks that the later steps rely on.
pub record IsValidClaims (claims : ClientAssertionClaims) : Type 0 where
  pub has_subject : claims.subject ≢ []
  pub self_issued : claims.issuer ≡ claims.subject
  pub has_audience : claims.audience ≢ []
  pub has_id : claims.jwt_id ≢ []
  pub registered : is_registered_operation claims.operation ≡ true
  pub resource_only_authenticate : is_authenticate claims.operation ≡ false → claims.resource ≡ []
  pub ordered : claims.issued_at <ℤ claims.expires_at
  pub short : exceeds_assertion_lifetime claims.issued_at claims.expires_at ≡ false

module _ (parse_url : Text → Option Url) (loopback : Bool) (v : ClientAssertionClaims) where
  valid-IsValidClaims : validate_client_assertion_claims parse_url loopback v ≡ [] → IsValidClaims v
  unfolding validate_client_assertion_claims
  valid-IsValidClaims e = record {
    has_subject = ground arith;
    self_issued = ground (arith, text_eq_sound v.issuer v.subject);
    has_audience = ground arith;
    has_id = ground arith;
    registered = ground arith;
    resource_only_authenticate = ground arith;
    ordered = ground arith;
    short = ground arith;
  }

not_shorter : (a b : ℤ) → ltb_ℤ a b ≡ false → b ≤ℤ a
not_shorter a b e = ground arith

not_longer : (a b : ℤ) → leb_ℤ a b ≡ false → b <ℤ a
not_longer a b e = ground arith

above_min : (a b : ℤ) → IsInt64 a → a <ℤ b → min_int64 <ℤ b
above_min a b h lt = omega arith

-- The reading of the clock that the checks use.
abbrev pub time_of : Time → Time → Time
time_of wall_clock current = if current == 0 then wall_clock else current

module _ {Key : Type 0} (parse_url : Text → Option Url)
    (parse_signed : Text → List Text → Option Token)
    (verified_claims : Text → Key → Option ClientAssertionClaims) (wall_clock : Time) where
  -- What a caller may rely on.
  pub record IsAccepted (options : VerifyOptions Key) (assertion : Text)
      (claims : ClientAssertionClaims) : Type 0 where
    pub key : Key
    pub signed : verified_claims assertion key ≡ some claims
    pub valid : IsValidClaims claims
    pub token : Token
    pub parsed : parse_signed assertion (algorithms_or_default options.algorithms) ≡ some token
    pub resolved : resolved_key options token ≡ ok (some key)
    pub key_did : (cut token.key_id b'#').0 ≡ claims.subject
    pub audience : options.audience ≢ [] → claims.audience ≡ options.audience
    pub subject : options.subject ≢ [] → claims.subject ≡ options.subject
    pub resource : options.resource ≢ [] → claims.resource ≡ options.resource
    pub lifetime : claims.expires_at ≤ℤ claims.issued_at +ℤ pos max_assertion_lifetime
    pub issued :
        claims.issued_at
        ≤ℤ unix (time_of wall_clock options.current_time)
          +ℤ pos (whole_seconds (pos_part options.clock_tolerance))
    pub unexpired :
        unix (time_of wall_clock options.current_time)
          -ℤ pos (whole_seconds (pos_part options.clock_tolerance))
        <ℤ claims.expires_at

  record IsChecked (options : VerifyOptions Key) (key_id : Text) (claims : ClientAssertionClaims)
      : Type 0 where
    valid : validate_client_assertion_claims parse_url options.allow_insecure_loopback claims ≡ []
    key_did : (cut key_id b'#').0 ≡ claims.subject
    audience : options.audience ≢ [] → claims.audience ≡ options.audience
    subject : options.subject ≢ [] → claims.subject ≡ options.subject
    resource : options.resource ≢ [] → claims.resource ≡ options.resource
    issued :
        ltb_ℤ
          (issued_deadline
            (unix (time_of wall_clock options.current_time))
            (whole_seconds (pos_part options.clock_tolerance)))
          claims.issued_at
        ≡ false
    unexpired :
        leb_ℤ claims.expires_at (
          expiry_deadline
            (unix (time_of wall_clock options.current_time))
            (whole_seconds (pos_part options.clock_tolerance)))
        ≡ false

  checked_claims-IsChecked :
      (options : VerifyOptions Key) (key_id : Text) (claims c : ClientAssertionClaims)
      → checked_claims parse_url parse_signed verified_claims wall_clock options key_id claims
        ≡ ok c
      → (claims ≡ c) × IsChecked options key_id claims
  unfolding checked_claims validation_result key_id_identifies
  checked_claims-IsChecked options key_id claims c e = (
    ground arith,
    record {
      valid = ground arith;
      key_did = ground (arith, text_eq_sound (cut key_id b'#').0 claims.subject);
      audience = ground (arith, text_eq_sound claims.audience options.audience);
      subject = ground (arith, text_eq_sound claims.subject options.subject);
      resource = ground (arith, text_eq_sound claims.resource options.resource);
      issued = ground arith;
      unexpired = ground arith;
    },
  )

  -- The token, the key and the payload behind claims that are returned.
  record IsVerified (options : VerifyOptions Key) (assertion : Text)
      (claims : ClientAssertionClaims) : Type 0 where
    token : Token
    key : Key
    payload : ClientAssertionClaims
    parsed : parse_signed assertion (algorithms_or_default options.algorithms) ≡ some token
    resolved : resolved_key options token ≡ ok (some key)
    signed : verified_claims assertion key ≡ some payload
    checked :
        checked_claims parse_url parse_signed verified_claims wall_clock options token.key_id
          payload
        ≡ ok claims

  verify-IsVerified :
      (options : VerifyOptions Key) (assertion : Text) (claims : ClientAssertionClaims)
      → verify_client_assertion parse_url parse_signed verified_claims wall_clock options assertion
        ≡ ok claims
      → IsVerified options assertion claims
  unfolding verify_client_assertion
  verify-IsVerified options assertion claims e =
      elim (Option-cases (parse_signed assertion (algorithms_or_default options.algorithms))) [
        | inl unparsed ↦ absurd (ground arith)
        | inr (token, parsed) ↦ elim (Outcome-cases (resolved_key options token)) [
          | inl (failure, unresolved) ↦ absurd (ground arith)
          | inr (resolved, found) ↦ elim (Option-cases resolved) [
            | inl absent ↦ absurd (ground arith)
            | inr (key, present) ↦ elim (Option-cases (verified_claims assertion key)) [
              | inl forged ↦ absurd (ground arith)
              | inr (payload, signed) ↦ record {
                token = token;
                key = key;
                payload = payload;
                parsed = parsed;
                resolved = found ∙ ap ok present;
                signed = signed;
                checked = ground arith;
              }
            ]
          ]
        ]
      ]

  checked-IsAccepted :
      (options : VerifyOptions Key) (assertion : Text) (claims : ClientAssertionClaims) (key : Key)
      (token : Token)
      → parse_signed assertion (algorithms_or_default options.algorithms) ≡ some token
      → resolved_key options token ≡ ok (some key)
      → verified_claims assertion key ≡ some claims
      → IsInt64 claims.issued_at
      → IsInt64 claims.expires_at
      → IsInt64 (unix (time_of wall_clock options.current_time))
      → whole_seconds (pos_part options.clock_tolerance) < 2 ^ 63
      → IsChecked options token.key_id claims
      → IsAccepted options assertion claims
  checked-IsAccepted options assertion claims key token parsed resolved signed hi he hn ht c =
      let valid = valid-IsValidClaims parse_url options.allow_insecure_loopback claims c.valid in
      let now : ℤ = unix (time_of wall_clock options.current_time) in
      let tolerance : ℕ = whole_seconds (pos_part options.clock_tolerance) in
      record {
        key = key;
        signed = signed;
        valid = valid;
        token = token;
        parsed = parsed;
        resolved = resolved;
        key_did = c.key_did;
        audience = c.audience;
        subject = c.subject;
        resource = c.resource;
        lifetime = not_shorter (claims.issued_at +ℤ pos max_assertion_lifetime) claims.expires_at (
            sym (exceeds_assertion_lifetime_exact claims.issued_at claims.expires_at hi he)
            ∙ valid.short);
        issued =
            not_shorter (now +ℤ pos tolerance) claims.issued_at
              (sym (issued_deadline_exact now claims.issued_at tolerance hn hi ht) ∙ c.issued);
        unexpired = not_longer claims.expires_at (now -ℤ pos tolerance) (
            sym (
              expiry_deadline_exact now claims.expires_at tolerance hn he
                (above_min claims.issued_at claims.expires_at hi valid.ordered) ht)
            ∙ c.unexpired);
      }

  -- Claims that are returned without error are a payload whose signature the resolved key verifies: they
  -- name one agent, they match the audience, subject and resource that the caller expects, they
  -- live for at most 300 seconds, and the time of verification lies within them, give or take the
  -- tolerance. The clock and the times of a payload are `int64`, the tolerance below 2^63 seconds.
  pub verify_client_assertion-IsAccepted :
      (options : VerifyOptions Key) (assertion : Text) (claims : ClientAssertionClaims)
      → ((token : Text) (key : Key) (payload : ClientAssertionClaims)
          → verified_claims token key ≡ some payload
          → IsInt64 payload.issued_at × IsInt64 payload.expires_at)
      → IsInt64 (unix (time_of wall_clock options.current_time))
      → whole_seconds (pos_part options.clock_tolerance) < 2 ^ 63
      → verify_client_assertion parse_url parse_signed verified_claims wall_clock options assertion
        ≡ ok claims
      → IsAccepted options assertion claims
  verify_client_assertion-IsAccepted options assertion claims int64 int64_now bounded e =
      let v = verify-IsVerified options assertion claims e in
      let (same, c) = checked_claims-IsChecked options v.token.key_id v.payload claims v.checked in
      let signed : verified_claims assertion v.key ≡ some claims = v.signed ∙ ap some same in
      let (hi, he) = int64 assertion v.key claims signed in
      checked-IsAccepted options assertion claims v.key v.token v.parsed v.resolved signed hi he
        int64_now bounded (subst (λ p. IsChecked options v.token.key_id p) same c)
