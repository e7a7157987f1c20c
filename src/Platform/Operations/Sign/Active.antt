-- ===== src/Platform/Operations/Sign/Active.antt =====
-- Who a Platform signs for.
use aep_go.Prelude.{
  Option, Outcome-cases, Text, arith, inl, inr, none, ok, some, text_eq_sound, ◌≡◌,
}
use aep_go.Platform.Idempotency.{IdempotencyStore}
use aep_go.Aep.Responses.{Reply}
use aep_go.Platform.Results.{problem_result}
use aep_go.Platform.Types.{
  RequestContext, AuthorizationRequest, SignRequest, SignResponse, IdentityRecord,
}
use aep_go.Aep.Codec.{Stdlib}
use aep_go.Aep.Types.{Time}
use aep_go.Platform.Config.{Platform, Hosting}
use aep_go.Platform.Operations.{authorized_identity, PlatformCodec}
use aep_go.Platform.Operations.Sign.{sign}
use aep_go.Platform.Operations.Authorized.{authorized_identity-IsOwned, IsOwned}

module _ {W Key : Type 0} (lib : Stdlib) (parse_time : Text → Option Time)
    (platform : Platform W Key) where
  -- A reply to Sign that is no problem is given only for an identity that is stored under the
  -- identifier of the request, that the caller owns and the authorizer admits, and that is hosted
  -- for the Service of the request. It holds for repeated requests, whose reply is a stored one.
  pub sign-IsOwned :
      (codec : PlatformCodec) (id : Text) (request : SignRequest) (context : RequestContext)
      (store : IdempotencyStore) (s : Hosting W) (reply : Reply SignResponse)
      → (sign lib parse_time platform codec id request context (store, s)).0 ≡ ok reply
      → reply.problem ≡ none
      → (r : IdentityRecord) × IsOwned platform s id context (AuthorizationRequest.sign r request) r
        × (r.service_did ≡ request.service_did)
  unfolding sign problem_result
  sign-IsOwned codec id request context store s reply e success =
      let request_of : IdentityRecord → AuthorizationRequest =
        λ r. AuthorizationRequest.sign r request in
      elim (Outcome-cases (authorized_identity lib platform id request_of context s).0) [
        | inl (failure, failed) ↦ absurd (ground arith)
        | inr (none, missing) ↦ absurd (ground arith)
        | inr (some r, found) ↦ (
          r,
          authorized_identity-IsOwned lib platform id request_of context s r found,
          text_eq_sound r.service_did request.service_did (ground arith),
        )
      ]
