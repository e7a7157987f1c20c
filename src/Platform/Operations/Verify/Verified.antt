-- ===== src/Platform/Operations/Verify/Verified.antt =====
-- When a hosted verification succeeds.
use aep_go.Prelude.{
  Bool-cases, Error, List, Option, Outcome-cases, Text, ap, arith, if◌then◌else◌, inl, inr, is_some,
  not, ok, some, sym, true, ◌&&◌, ◌==◌, ◌∙◌, ◌≡◌, ◌≤◌,
}
use aep_go.Prelude.Int64.{ltb_ℤ, pos, ℤ}
use aep_go.Platform.Results.{success_result}
use aep_go.Platform.Operations.Verify.{
  verification_key, from_unix, unrecognized, stored_replay, consume_claims, verify_options,
  verify_with_key, NamedToken, internal_seconds, consume_until,
}
use aep_go.Platform.Replay.{ReplayStore}
use aep_go.Aep.Responses.{Reply}
use aep_go.Platform.Types.{
  IdentityRecord, VerificationResponse, VerificationRequest, RequestContext,
}
use aep_go.Aep.Types.{ClientAssertionClaims, Time}
use aep_go.Platform.Config.{Hosting, Platform, request_time}
use aep_go.Platform.Operations.Verify.{verification_key, verified_response}
use aep_go.Aep.Assertion.{verify_client_assertion, Token}
use aep_go.Aep.Codec.{Stdlib}
use aep_go.Platform.Replay.Once.{accepted_key}

-- A reply that says the assertion is verified.
abbrev pub SaysVerified : Reply VerificationResponse → Type 0
SaysVerified reply =
    (response : VerificationResponse) × (reply.body ≡ some response) × (response.verified ≡ true)

-- The key has not been used, or what was used with it has expired.
abbrev pub IsUnused : ReplayStore → Text → Time → Type 0
IsUnused replays key now = (expiry : Time) → replays key ≡ some expiry → expiry ≤ now

abbrev pub key_of_claims : (agent_did : Text) → VerificationRequest → ClientAssertionClaims → Text
key_of_claims agent_did request claims = verification_key request agent_did claims.jwt_id

pub unrecognized-not_verified :
    (request : VerificationRequest) (reply : Reply VerificationResponse)
    → ok (unrecognized request) ≡ ok reply
    → ¬ SaysVerified reply
unfolding unrecognized success_result
unrecognized-not_verified request reply e (response, body, verified) = ground arith

-- What a call that consumes a key has found, and what it leaves.
consumed-IsUnused :
    (cancelled : Option Error) (key : Text) (seconds : ℤ) (now : Time) (replays : ReplayStore)
    → (consume_until cancelled key seconds now replays).0 ≡ ok true
    → IsUnused replays key now
unfolding consume_until
consumed-IsUnused cancelled key seconds now replays e expiry h = ground arith

consumed_is_recorded :
    (cancelled : Option Error) (key : Text) (seconds : ℤ) (now : Time) (replays : ReplayStore)
    → (consume_until cancelled key seconds now replays).0 ≡ ok true
    → (consume_until cancelled key seconds now replays).1 key ≡ some (from_unix seconds)
unfolding consume_until
consumed_is_recorded cancelled key seconds now replays e =
    let accepted = accepted_key cancelled key (from_unix seconds) now replays in
    elim (Bool-cases (ltb_ℤ (internal_seconds seconds) (pos 0) && not (is_some cancelled))) [
      | inl before ↦ absurd (ground arith)
      | inr after ↦ rw after (accepted (ground arith))
    ]

module _ {W Key : Type 0} (platform : Platform W Key) where
  -- The time that a verification checks an assertion with, when the collaborators are in the state:
  -- that of the request, or the clock's if the request has none.
  abbrev pub verification_time : RequestContext → W → Time
  verification_time context w = if context.now == 0 then (platform.clock w).0 else context.now

  -- What the collaborators are then, and what the wall clock, which the replay store reads, shows.
  abbrev pub timed : RequestContext → W → W
  timed context w = if context.now == 0 then (platform.clock w).1 else w

  abbrev pub replay_time : RequestContext → W → Time
  replay_time context w = platform.wall_clock (timed context w)

  pub consume_claims-IsUnused :
      (identity : IdentityRecord) (agent_did : Text) (request : VerificationRequest)
      (claims : ClientAssertionClaims) (s : Hosting W) (reply : Reply VerificationResponse)
      → (consume_claims platform identity agent_did request claims s).0 ≡ ok reply
      → SaysVerified reply
      → ((stored_replay platform (key_of_claims agent_did request claims) claims.expires_at s).0
          ≡ ok true)
        × (reply ≡ verified_response identity request)
  unfolding consume_claims unrecognized success_result
  consume_claims-IsUnused identity agent_did request claims s reply e (response, body, verified) =
      (ground arith, ground arith)

  consume_claims_records :
      (identity : IdentityRecord) (agent_did : Text) (request : VerificationRequest)
      (claims : ClientAssertionClaims) (s : Hosting W) (reply : Reply VerificationResponse)
      → (consume_claims platform identity agent_did request claims s).0 ≡ ok reply
      → SaysVerified reply
      → (consume_claims platform identity agent_did request claims s).1.replays
          (key_of_claims agent_did request claims)
        ≡ some (from_unix claims.expires_at)
  unfolding consume_claims unrecognized success_result
  consume_claims_records identity agent_did request claims s reply e (response, body, verified) =
      let accepted =
        consumed_is_recorded (platform.cancelled s.external)
          (key_of_claims agent_did request claims) claims.expires_at
          (platform.wall_clock s.external) s.replays
          (consume_claims-IsUnused identity agent_did request claims s reply e
            (response, body, verified)).0 in
      ground arith

  request_time-timed :
      (context : RequestContext) (s : Hosting W)
      → request_time platform context s ≡ (
        ok (verification_time context s.external),
        record s { external = timed context s.external },
      )
  request_time-timed context s = elim (Bool-cases (context.now == 0)) [
    | inl unset ↦ ground arith
    | inr set ↦ ground arith
  ]

module _ {W Key : Type 0} (lib : Stdlib) (platform : Platform W Key)
    (decode_named : Text → Option NamedToken) (parse_signed : Text → List Text → Option Token)
    (verified_claims : Text → Key → Option ClientAssertionClaims) (identity : IdentityRecord)
    (agent_did : Text) (request : VerificationRequest) (context : RequestContext) where
  -- The claims that a verification accepts under a key, and what it does to the replay store.
  pub record IsAcceptedUnder (key : Key) (s : Hosting W) (after : ReplayStore)
      (reply : Reply VerificationResponse) : Type 0 where
    pub claims : ClientAssertionClaims
    pub accepted :
        verify_client_assertion lib.parse_url parse_signed verified_claims
          (replay_time platform context s.external)
          (verify_options identity request key (verification_time platform context s.external))
          request.client_assertion
        ≡ ok claims
    pub unused :
        IsUnused s.replays
          (key_of_claims agent_did request claims)
          (replay_time platform context s.external)
    pub recorded :
        after (key_of_claims agent_did request claims) ≡ some (from_unix claims.expires_at)
    pub same_reply : reply ≡ verified_response identity request

  pub verify_with_key-IsAcceptedUnder :
      (key : Key) (s : Hosting W) (reply : Reply VerificationResponse)
      → (verify_with_key lib platform decode_named parse_signed verified_claims identity agent_did
          request context key s).0
        ≡ ok reply
      → SaysVerified reply
      → IsAcceptedUnder key s
          (verify_with_key lib platform decode_named parse_signed verified_claims identity agent_did
            request context key s).1.replays
          reply
  unfolding verify_with_key
  verify_with_key-IsAcceptedUnder key s reply e says =
      let w = timed platform context s.external in
      let at = request_time-timed platform context s in
      let verified =
        verify_client_assertion lib.parse_url parse_signed verified_claims (platform.wall_clock w)
          (verify_options identity request key (verification_time platform context s.external))
          request.client_assertion in
      let s1 : Hosting W = record s { external = w } in
      elim (Outcome-cases verified) [
        | inl (failure, failed) ↦
            let step : verify_with_key lib platform decode_named parse_signed verified_claims
                  identity agent_did request context key s
                ≡ (ok (unrecognized request), s1) =
              ground arith in
            absurd (unrecognized-not_verified request reply (ap (λ q. q.0) (sym step) ∙ e) says)
        | inr (claims, accepted) ↦
            let step : verify_with_key lib platform decode_named parse_signed verified_claims
                  identity agent_did request context key s
                ≡ consume_claims platform identity agent_did request claims s1 =
              ground arith in
            let e' : (consume_claims platform identity agent_did request claims s1).0 ≡ ok reply =
              ap (λ q. q.0) (sym step) ∙ e in
            let (consumed, same) =
              consume_claims-IsUnused platform identity agent_did request claims s1 reply e' says in
            record {
              claims = claims;
              accepted = accepted;
              unused =
                  consumed-IsUnused (platform.cancelled w) (key_of_claims agent_did request claims)
                    claims.expires_at (platform.wall_clock w) s.replays consumed;
              recorded =
                  ap (λ q. q.1.replays (key_of_claims agent_did request claims)) step
                  ∙ consume_claims_records platform identity agent_did request claims s1 reply e'
                      says;
              same_reply = same;
            }
      ]
