-- ===== src/Platform/Operations/Verify/Once.antt =====
-- What a hosted verification vouches for, and that it vouches once.
use aep_go.Prelude.{
  All, Bool-cases, List, Option, Outcome, Outcome-cases, Text, ap, arith, false, inl, inr, ok,
  ok_injective, some, subst, sym, true, ◌<◌, ◌∙◌, ◌≡◌, ◌≢◌,
}
use aep_go.Platform.Replay.Once.{consume_all_keeps}
use aep_go.Aep.Responses.{Reply}
use aep_go.Platform.Types.{
  RequestContext, VerificationResponse, is_active_status, IdentityRecord, VerificationRequest,
}
use aep_go.Platform.Replay.{ReplayStore, consume_all, KeyCall}
use aep_go.Aep.Assertion.{Token, verify_client_assertion}
use aep_go.Aep.Codec.{Stdlib}
use aep_go.Aep.Types.{ClientAssertionClaims}
use aep_go.Platform.Config.{Platform, Hosting}
use aep_go.Platform.Operations.Verify.{
  verify_run, NamedToken, verify_with_key, from_unix, verify_options, verification_key,
}
use aep_go.Platform.Operations.Verify.Verified.{
  key_of_claims, IsAcceptedUnder, SaysVerified, verify_with_key-IsAcceptedUnder,
  unrecognized-not_verified, IsUnused, verification_time, replay_time,
}
use aep_go.Aep.Claims.{has}

key_of_parts :
    (agent_did : Text) (a b : VerificationRequest) (c d : ClientAssertionClaims)
    → a.service_did ≡ b.service_did
    → a.operation ≡ b.operation
    → c.jwt_id ≡ d.jwt_id
    → key_of_claims agent_did a c ≡ key_of_claims agent_did b d
unfolding verification_key
key_of_parts agent_did a b c d service operation same_id = cc

module _ {W Key : Type 0} (lib : Stdlib) (platform : Platform W Key)
    (decode_named : Text → Option NamedToken) (parse_signed : Text → List Text → Option Token)
    (verified_claims : Text → Key → Option ClientAssertionClaims) where
  -- The state of the collaborators after the lifecycle policy, and then the key store, has answered.
  abbrev pub allowed_state : IdentityRecord → RequestContext → Hosting W → W
  allowed_state identity context s = (platform.can_verify identity context s.external).1

  abbrev pub key_state : IdentityRecord → RequestContext → Hosting W → W
  key_state identity context s =
      (platform.verification_key identity (allowed_state identity context s)).1

  -- What stands behind a reply that says the assertion is verified.
  pub record IsVerified (identity : IdentityRecord) (agent_did : Text)
      (request : VerificationRequest) (context : RequestContext) (s : Hosting W)
      (after : ReplayStore) (reply : Reply VerificationResponse) : Type 0 where
    pub active : is_active_status identity.status ≡ true
    pub allowed : (platform.can_verify identity context s.external).0 ≡ ok true
    pub key : Key
    pub key_of_identity :
        (platform.verification_key identity (allowed_state identity context s)).0 ≡ ok key
    pub verified :
        IsAcceptedUnder lib platform decode_named parse_signed verified_claims identity agent_did
          request context key
          (record s { external = key_state identity context s })
          after
          reply

  -- When a verification answers that an assertion is verified, the identity is active and the
  -- policy has allowed it, the assertion was accepted for the identity, the Service, the operation
  -- and the resource of the request under the key that the key store gave for it, at the time of
  -- the request or, if it has none, of the clock; by the wall clock its replay key had not been
  -- used or had expired, and it is recorded until the assertion expires.
  pub verify_run-IsVerified :
      (identity : IdentityRecord) (agent_did : Text) (request : VerificationRequest)
      (context : RequestContext) (s : Hosting W) (reply : Reply VerificationResponse)
      → (verify_run lib platform decode_named parse_signed verified_claims identity agent_did
          request context s).0
        ≡ ok reply
      → SaysVerified reply
      → IsVerified identity agent_did request context s
          (verify_run lib platform decode_named parse_signed verified_claims identity agent_did
            request context s).1.replays
          reply
  unfolding verify_run
  verify_run-IsVerified identity agent_did request context s reply e says =
      let w = (platform.can_verify identity context s.external).1 in
      let w' = (platform.verification_key identity w).1 in
      let s' : Hosting W = record s { external = w' } in
      elim (Outcome-cases (platform.can_verify identity context s.external).0) [
        | inl (failure, failed) ↦ absurd (ground arith)
        | inr (false, refused) ↦
            absurd (unrecognized-not_verified request reply (ground arith) says)
        | inr (true, allowed) ↦ elim (Bool-cases (is_active_status identity.status)) [
          | inr inactive ↦ absurd (unrecognized-not_verified request reply (ground arith) says)
          | inl active ↦ elim (Outcome-cases (platform.verification_key identity w).0) [
            | inl (failure, failed) ↦ absurd (ground arith)
            | inr (key, got) ↦
                let step : verify_run lib platform decode_named parse_signed verified_claims
                      identity agent_did request context s
                    ≡ verify_with_key lib platform decode_named parse_signed verified_claims
                        identity agent_did request context key s' =
                  ground arith in
                record {
                  active = active;
                  allowed = allowed;
                  key = key;
                  key_of_identity = got;
                  verified =
                      subst
                        (λ (q : Outcome (Reply VerificationResponse) × Hosting W).
                          IsAcceptedUnder lib platform decode_named parse_signed verified_claims
                            identity agent_did request context key s' q.1.replays reply)
                        (sym step)
                        (verify_with_key-IsAcceptedUnder lib platform decode_named parse_signed
                          verified_claims identity agent_did request context key s' reply
                          (ap (λ q. q.0) (sym step) ∙ e) says);
                }
          ]
        ]
      ]

  -- The claims that a run of the verification reads from the assertion.
  pub record HasClaims (identity : IdentityRecord) (request : VerificationRequest)
      (context : RequestContext) (s : Hosting W) (claims : ClientAssertionClaims) : Type 0 where
    pub key : Key
    pub key_of_identity :
        (platform.verification_key identity (allowed_state identity context s)).0 ≡ ok key
    pub accepted :
        verify_client_assertion lib.parse_url parse_signed verified_claims
          (replay_time platform context (key_state identity context s))
          (verify_options identity request key
            (verification_time platform context (key_state identity context s)))
          request.client_assertion
        ≡ ok claims

  -- A run reads one set of claims.
  claims_of-IsVerified :
      (identity : IdentityRecord) (agent_did : Text) (request : VerificationRequest)
      (context : RequestContext) (s : Hosting W) (after : ReplayStore)
      (reply : Reply VerificationResponse) (claims : ClientAssertionClaims)
      → HasClaims identity request context s claims
      → (v : IsVerified identity agent_did request context s after reply)
      → v.verified.claims ≡ claims
  claims_of-IsVerified identity agent_did request context s after reply claims h v =
      let same : v.key ≡ h.key = ok_injective _ _ (sym v.key_of_identity ∙ h.key_of_identity) in
      let again : verify_client_assertion lib.parse_url parse_signed verified_claims
            (replay_time platform context (key_state identity context s))
            (verify_options identity request h.key
              (verification_time platform context (key_state identity context s)))
            request.client_assertion
          ≡ ok v.verified.claims =
        subst
          (λ k.
            verify_client_assertion lib.parse_url parse_signed verified_claims
              (replay_time platform context (key_state identity context s))
              (verify_options identity request k
                (verification_time platform context (key_state identity context s)))
              request.client_assertion
            ≡ ok v.verified.claims)
          same v.verified.accepted in
      ok_injective _ _ (sym again ∙ h.accepted)

  -- Of two runs of the verification for one Service, operation and Agent DID that both answer that
  -- their assertion is verified, the second one after the first with whatever calls of the replay
  -- store in between, the assertions have different JWT IDs, as long as the wall clock shows the
  -- calls in between and the second run a time before the expiry of the first assertion.
  pub verified_once :
      (identity identity' : IdentityRecord) (agent_did : Text)
      (request request' : VerificationRequest) (context context' : RequestContext) (s t : Hosting W)
      (between : List KeyCall) (reply reply' : Reply VerificationResponse)
      (claims claims' : ClientAssertionClaims)
      → HasClaims identity request context s claims
      → (verify_run lib platform decode_named parse_signed verified_claims identity agent_did
          request context s).0
        ≡ ok reply
      → SaysVerified reply
      → t.replays
        ≡ (consume_all between
            (verify_run lib platform decode_named parse_signed verified_claims identity agent_did
              request context s).1.replays).1
      → HasClaims identity' request' context' t claims'
      → (verify_run lib platform decode_named parse_signed verified_claims identity' agent_did
          request' context' t).0
        ≡ ok reply'
      → SaysVerified reply'
      → All (λ c. c.now < from_unix claims.expires_at) between
      → replay_time platform context' (key_state identity' context' t) < from_unix claims.expires_at
      → request'.service_did ≡ request.service_did
      → request'.operation ≡ request.operation
      → claims'.jwt_id ≢ claims.jwt_id
  verified_once identity identity' agent_did request request' context context' s t between reply
        reply' claims claims' has e says later has' e' says' live early service operation same_id =
      let after =
        (verify_run lib platform decode_named parse_signed verified_claims identity agent_did
          request context s).1.replays in
      let first = verify_run-IsVerified identity agent_did request context s reply e says in
      let second = verify_run-IsVerified identity' agent_did request' context' t reply' e' says' in
      let one =
        claims_of-IsVerified identity agent_did request context s _ reply claims has first in
      let other =
        claims_of-IsVerified identity' agent_did request' context' t _ reply' claims' has' second in
      let key = key_of_claims agent_did request claims in
      let recorded : after key ≡ some (from_unix claims.expires_at) =
        subst (λ c. after (key_of_claims agent_did request c) ≡ some (from_unix c.expires_at)) one
          first.verified.recorded in
      let kept = consume_all_keeps between key (from_unix claims.expires_at) after recorded live in
      let same_key : key_of_claims agent_did request' claims' ≡ key =
        key_of_parts agent_did request' request claims' claims service operation same_id in
      let unused : IsUnused t.replays (key_of_claims agent_did request' claims')
          (replay_time platform context' (key_state identity' context' t)) =
        subst
          (λ c.
            IsUnused t.replays (key_of_claims agent_did request' c)
              (replay_time platform context' (key_state identity' context' t)))
          other second.verified.unused in
      let expired =
        unused (from_unix claims.expires_at)
          (ap t.replays same_key ∙ (ap (λ (r : ReplayStore). r key) later ∙ kept)) in
      omega arith
