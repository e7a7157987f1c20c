-- ===== src/Platform/Operations/Sign/Signed.antt =====
-- What stands behind every answer of the function that Sign hands to the idempotency store.
use aep_go.Prelude.{
  Bool-cases, Option, Option-cases, Outcome-cases, Text, [], arith, false, if◌then◌else◌, inl, inr,
  none, ok, refl, some, subst, true, ℕ, ◌==◌, ◌≡◌, ◌⊎◌,
}
use aep_go.Prelude.Actions.{Action}
use aep_go.Platform.Results.{success_result, problem_result}
use aep_go.Aep.Codec.{Stdlib}
use aep_go.Aep.Responses.{Reply}
use aep_go.Aep.Types.{ErrorCode, Time, new_problem_details}
use aep_go.Platform.Config.{Hosting, Platform, request_time}
use aep_go.Platform.Operations.Sign.{
  signed_claims, signed_response, sign_with_key, sign_allowed, handled_signing, sign_run,
}
use aep_go.Platform.Requests.{validate_sign_result}
use aep_go.Platform.Results.{lifecycle_error_code}
use aep_go.Platform.Types.{
  SignRequest, RequestContext, is_active_status, IdentityRecord, ManagedAgentStatus, SignResponse,
}

-- The error code that a caller is told for an identity of the status.
abbrev pub HasRefusalCode : ManagedAgentStatus → ErrorCode → Type 0
HasRefusalCode ManagedAgentStatus.terminated code = code ≡ ErrorCode.identity_terminated
HasRefusalCode ManagedAgentStatus.suspended code = code ≡ ErrorCode.identity_suspended
HasRefusalCode ManagedAgentStatus.revoked code = code ≡ ErrorCode.identity_suspended
HasRefusalCode ManagedAgentStatus.active code = code ≡ ErrorCode.identity_unavailable
HasRefusalCode (ManagedAgentStatus.unregistered _) code = code ≡ ErrorCode.identity_unavailable

module _ {W Key : Type 0} (lib : Stdlib) (parse_time : Text → Option Time)
    (platform : Platform W Key) (identity : IdentityRecord) (request : SignRequest) (lifetime : ℕ)
    (context : RequestContext) where
  -- The lifecycle policy refuses or the identity is not active; the reply is a problem that tells
  -- no more than the code for its status, and nobody but the policy has been asked.
  pub record IsRefused (s after : Hosting W) (reply : Reply SignResponse) : Type 0 where
    pub reason :
        ((platform.can_sign identity context s.external).0 ≡ ok false)
        ⊎ (is_active_status identity.status ≡ false)
    pub code : ErrorCode
    pub code_of_status : HasRefusalCode identity.status code
    pub no_body : reply.body ≡ none
    pub forbidden : reply.status ≡ 403
    pub problem : reply.problem ≡ some (new_problem_details code "Identity cannot sign." 403)
    pub untouched :
        after ≡ record s { external = (platform.can_sign identity context s.external).1 }

  -- The handler of the Platform has answered, and its answer has passed validateSignResult.
  pub record IsHandled (w : W) (reply : Reply SignResponse) : Type 0 where
    pub handler :
        IdentityRecord → SignRequest → RequestContext → Action W (Option (Reply SignResponse))
    pub configured : platform.sign_handler ≡ some handler
    pub answered : (handler identity request context w).0 ≡ ok (some reply)
    pub validated : validate_sign_result parse_time reply identity request ≡ ok tt

  -- The state of the collaborators after the handler, if there is one.
  abbrev pub handled_state : W → W
  handled_state w = elim platform.sign_handler [
    | none ↦ w
    | some handler ↦ (handler identity request context w).1
  ]

  -- The time of the request, or the clock's if the request has none, and the state after it.
  abbrev pub sign_time : W → Time
  sign_time w = if context.now == 0 then (platform.clock w).0 else context.now

  abbrev pub sign_state : W → W
  sign_state w = if context.now == 0 then (platform.clock w).1 else w

  -- The key store, when it comes after the state, has signed the claims of the request, and the
  -- reply carries its assertion.
  pub record IsSignedByKey (w : W) (reply : Reply SignResponse) : Type 0 where
    pub assertion : Text
    pub signed :
        (platform.sign_claims identity
          (signed_claims identity request lifetime (sign_time w))
          (sign_state w)).0
        ≡ ok assertion
    pub same_reply :
        reply
        ≡ success_result 200
            (signed_response lib parse_time platform identity request lifetime
              (sign_time w)
              assertion)
            []

  -- The identity is active, the policy allows the signature, and the answer is the handler's or
  -- carries a signature of the key store.
  pub record IsAllowed (s : Hosting W) (reply : Reply SignResponse) : Type 0 where
    pub active : is_active_status identity.status ≡ true
    pub allowed : (platform.can_sign identity context s.external).0 ≡ ok true
    pub source :
        IsHandled (platform.can_sign identity context s.external).1 reply
        ⊎ IsSignedByKey (handled_state (platform.can_sign identity context s.external).1) reply

  refusal_code : (status : ManagedAgentStatus) → HasRefusalCode status (lifecycle_error_code status)
  unfolding lifecycle_error_code
  refusal_code ManagedAgentStatus.terminated = refl
  refusal_code ManagedAgentStatus.suspended = refl
  refusal_code ManagedAgentStatus.revoked = refl
  refusal_code ManagedAgentStatus.active = refl
  refusal_code (ManagedAgentStatus.unregistered _) = refl

  sign_with_key-IsSignedByKey :
      (s : Hosting W) (reply : Reply SignResponse)
      → (sign_with_key lib parse_time platform identity request lifetime context s).0 ≡ ok reply
      → IsSignedByKey s.external reply
  unfolding sign_with_key
  sign_with_key-IsSignedByKey s reply e = elim (Bool-cases (context.now == 0)) [
    | inl unset ↦ from_key (ground arith)
    | inr set ↦ from_key (ground arith)
  ]
    where
      from_key :
          request_time platform context s
            ≡ (ok (sign_time s.external), record s { external = sign_state s.external })
          → IsSignedByKey s.external reply
      from_key ready =
          elim (Outcome-cases
            (platform.sign_claims identity
              (signed_claims identity request lifetime (sign_time s.external))
              (sign_state s.external)).0) [
                | inl (failure, failed) ↦ absurd (ground arith)
                | inr (assertion, signed) ↦ record {
                  assertion = assertion;
                  signed = signed;
                  same_reply = ground arith;
                }
              ]

  sign_allowed_source :
      (s : Hosting W) (reply : Reply SignResponse)
      → (sign_allowed lib parse_time platform identity request lifetime context s).0 ≡ ok reply
      → IsHandled s.external reply ⊎ IsSignedByKey (handled_state s.external) reply
  unfolding sign_allowed handled_signing
  sign_allowed_source s reply e = elim (Option-cases platform.sign_handler) [
    | inl missing ↦
        let same : s.external ≡ handled_state s.external = ground arith in
        inr (
          subst (λ v. IsSignedByKey v reply) same
            (sign_with_key-IsSignedByKey s reply (ground arith)))
    | inr (handler, configured) ↦
        let w = (handler identity request context s.external).1 in
        elim (Outcome-cases (handler identity request context s.external).0) [
          | inl (failure, failed) ↦ absurd (ground arith)
          | inr (none, left) ↦
              let same : w ≡ handled_state s.external = ground arith in
              inr (
                subst (λ v. IsSignedByKey v reply) same
                  (sign_with_key-IsSignedByKey (record s { external = w }) reply (ground arith)))
          | inr (some result, answered) ↦
              elim (Outcome-cases (validate_sign_result parse_time result identity request)) [
                | inl (failure, invalid) ↦ absurd (ground arith)
                | inr (unit, valid) ↦
                    let same : result ≡ reply = ground arith in
                    inl (record {
                      handler = handler;
                      configured = configured;
                      answered = ground arith;
                      validated =
                          subst (λ r. validate_sign_result parse_time r identity request ≡ ok tt)
                            same valid;
                    })
              ]
        ]
  ]

  -- Whatever the policy, the sign handler and the key store do, an answer without an error is one
  -- of two. Either the policy refuses or the identity is not active: then it is the problem 403
  -- with the code for the status of the identity, and nothing but the policy has been asked. Or the
  -- identity is active and the policy allows it: then it is a valid answer of the sign handler, or
  -- it carries the key store's signature of the claims of the request.
  pub sign_run-cases :
      (s : Hosting W) (reply : Reply SignResponse)
      → (sign_run lib parse_time platform identity request lifetime context s).0 ≡ ok reply
      → IsRefused s (sign_run lib parse_time platform identity request lifetime context s).1 reply
        ⊎ IsAllowed s reply
  unfolding sign_run problem_result
  sign_run-cases s reply e =
      let w = (platform.can_sign identity context s.external).1 in
      elim (Outcome-cases (platform.can_sign identity context s.external).0) [
        | inl (failure, failed) ↦ absurd (ground arith)
        | inr (false, refused) ↦ inl (record {
          reason = inl refused;
          code = lifecycle_error_code identity.status;
          code_of_status = refusal_code identity.status;
          no_body = ground arith;
          forbidden = ground arith;
          problem = ground arith;
          untouched = ground arith;
        })
        | inr (true, allowed) ↦ elim (Bool-cases (is_active_status identity.status)) [
          | inr inactive ↦ inl (record {
            reason = inr inactive;
            code = lifecycle_error_code identity.status;
            code_of_status = refusal_code identity.status;
            no_body = ground arith;
            forbidden = ground arith;
            problem = ground arith;
            untouched = ground arith;
          })
          | inl active ↦ inr (record {
            active = active;
            allowed = allowed;
            source = sign_allowed_source (record s { external = w }) reply (ground arith);
          })
        ]
      ]
