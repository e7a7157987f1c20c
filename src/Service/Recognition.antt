-- ===== src/Service/Recognition.antt =====
-- service/commands.go: which client assertions a Service recognizes.
pub mod Once
pub mod Valid
use aep_go.Prelude.{
  Bool, Option, Outcome, Text, [], bytes, contains, err, false, if◌then◌else◌, is_empty, is_some,
  none, not, ok, some, text_eq, ℕ, ◌&&◌, ◌++◌, ◌||◌, ◌∷◌,
}
use aep_go.Prelude.Int64.{add64, leb_ℤ, ltb_ℤ, max_int64, pos, sub64, ℤ}
use aep_go.Aep.Types.{Time, ClientAssertionClaims, unix, operation_eq, AssertionOperation}
use aep_go.Prelude.Actions.{Action, ◌>>=◌, pure, attempt}
use aep_go.Aep.Assertion.{
  expiry_deadline, whole_seconds, validate_client_assertion_claims, issued_deadline,
}
use aep_go.Aep.Bytes.{cut}
use aep_go.Aep.Codec.{Stdlib}
use aep_go.Aep.Issues.{issue}
use aep_go.Service.Config.{external_call, Service, read_clock, Core}
use aep_go.Service.Replay.{consume_replay}
use aep_go.Service.Types.{CommandOptions, AssertionVerificationContext, ReplayRecord}

-- `identityMethod`: the parts of `strings.SplitN(did, ":", 3)`
unfoldable pub identity_method : Text → Text
unfolding cut text_eq
identity_method did =
    let (scheme, after_scheme) = cut did b':' in
    elim after_scheme [
      | none ↦ []
      | some rest ↦
          let (method, after_method) = cut rest b':' in
          if is_some after_method && text_eq scheme (bytes "did") && not (is_empty method)
          then bytes "did:" ++ method
          else []
    ]

abbrev pub equals_header : Option Text → (Text → Bool) → Bool
equals_header none test = false
equals_header (some value) test = test value

module _ {W : Type 0} (lib : Stdlib) (service : Service W) where
  -- The header of the assertion as it was presented.
  unfoldable pub header_identifies : Text → Text → Bool
  unfolding cut text_eq contains
  header_identifies assertion subject = elim (lib.decode_jwt assertion) [
    | none ↦ false
    | some header ↦
        equals_header header.algorithm (contains service.signing_algorithms)
        && equals_header header.type_value (λ t. text_eq t (bytes "JWT"))
        && equals_header header.key_id (λ k. text_eq (cut k b'#').0 subject)
  ]

  -- The times of the claims against the clock and the configured limits.
  unfoldable pub within_window : ClientAssertionClaims → Time → Bool
  unfolding issued_deadline expiry_deadline
  within_window claims now =
      let maximum : ℕ = whole_seconds service.maximum_lifetime in
      let skew : ℕ = whole_seconds service.clock_skew in
      ltb_ℤ claims.issued_at claims.expires_at
      && leb_ℤ claims.issued_at (sub64 max_int64 (pos maximum))
      && leb_ℤ claims.expires_at (add64 claims.issued_at (pos maximum))
      && leb_ℤ claims.issued_at (issued_deadline (unix now) skew)
      && ltb_ℤ (expiry_deadline (unix now) skew) claims.expires_at

  -- `validAssertion`
  unfoldable pub valid_assertion :
      Text → ClientAssertionClaims → AssertionOperation → (resource : Text) → Time → Bool
  unfolding identity_method header_identifies within_window text_eq contains operation_eq
  valid_assertion assertion claims operation resource now =
      elim (validate_client_assertion_claims lib.parse_url service.allow_insecure_loopback claims) [
        | issue ∷ issues ↦ false
        | [] ↦
            text_eq claims.issuer claims.subject
            && text_eq claims.audience service.service_did
            && operation_eq claims.operation operation
            && text_eq claims.resource resource
            && contains service.identity_methods (identity_method claims.subject)
            && header_identifies assertion claims.subject
            && within_window claims now
      ]

  -- `ConsumeReplay` of the Service's store.
  unfoldable pub consume : ReplayRecord → ℤ → Action (Core W) Bool
  unfolding consume_replay
  consume presented now s =
      let (fresh, replays) =
        consume_replay (service.cancelled s.external) presented now s.replays in
      (fresh, record s { replays = replays })

  unfoldable pub verification_context :
      CommandOptions → AssertionOperation → (resource : Text) → Time → AssertionVerificationContext
  verification_context options operation resource now = record {
    allow_insecure_loopback = service.allow_insecure_loopback;
    clock_tolerance = service.clock_skew;
    current_time = now;
    idempotency_key = options.idempotency_key;
    operation = operation;
    resource = resource;
    service_did = service.service_did;
    signing_algorithms = service.signing_algorithms;
  }

  -- The replay record of an assertion is kept for the clock skew beyond its expiry.
  abbrev pub replay_record : ClientAssertionClaims → ReplayRecord
  replay_record claims = record {
    expires_at = add64 claims.expires_at (pos (whole_seconds service.clock_skew));
    jwt_id = claims.jwt_id;
    subject = claims.subject;
  }

  -- What follows the call of the verifier.
  unfoldable pub admit_claims :
      Text
      → AssertionOperation
      → (resource : Text) → Time
      → Outcome ClientAssertionClaims
      → Action (Core W) (Option ClientAssertionClaims)
  unfolding valid_assertion consume
  admit_claims assertion operation resource now (err e) = pure none
  admit_claims assertion operation resource now (ok claims) =
      if not (valid_assertion assertion claims operation resource now)
        || ltb_ℤ (sub64 max_int64 (pos (whole_seconds service.clock_skew))) claims.expires_at
      then pure none
      else (consume (replay_record claims) (unix now) >>= λ fresh.
          if fresh then pure (some claims) else pure none)

  -- `authenticateAssertion`; `none` when the assertion is not recognized
  unfoldable pub authenticate_assertion :
      CommandOptions
      → AssertionOperation
      → (resource : Text) → Action (Core W) (Option ClientAssertionClaims)
  unfolding admit_claims verification_context
  authenticate_assertion options operation resource =
      if is_empty options.client_assertion
      then pure none
      else (read_clock service >>= λ now.
          attempt (
            external_call (
              service.verifier options.client_assertion
                (verification_context options operation resource now)))
          >>= admit_claims options.client_assertion operation resource now)
