-- ===== src/Platform/Operations/Authorized.antt =====
-- What `authorizedIdentity` establishes.
use aep_go.Prelude.{
  Bool, Error, Option, Outcome-cases, Text, [], ap, arith, inl, inr, none, ok, some, subst,
  text_eq_sound, true, ◌∙◌, ◌≡◌, ◌≢◌,
}
use aep_go.Platform.Identities.{get_identity, IdentityStore}
use aep_go.Platform.Types.{RequestContext, AuthorizationRequest, IdentityRecord}
use aep_go.Aep.Codec.{Stdlib}
use aep_go.Platform.Config.{Platform, Hosting}
use aep_go.Platform.Operations.{owned_identity, authorized_identity}

-- What `authorizedIdentity` has established about the record that it returns.
pub record IsOwned {W Key : Type 0} (platform : Platform W Key) (s : Hosting W) (id : Text)
    (context : RequestContext) (request : AuthorizationRequest) (r : IdentityRecord) : Type 0 where
  pub stored : s.identities.records id ≡ some r
  pub owner : r.principal ≡ context.principal
  pub has_owner : context.principal ≢ []
  pub admitted : (platform.authorize request context s.external).0 ≡ ok true

module _ {W Key : Type 0} (lib : Stdlib) (platform : Platform W Key) where
  owned_identity-parts :
      (context : RequestContext) (x r : IdentityRecord) (b : Bool)
      → owned_identity lib platform context x b ≡ some r
      → (x ≡ r) × (b ≡ true) × (x.principal ≡ context.principal) × (context.principal ≢ [])
  unfolding owned_identity
  owned_identity-parts context x r b e = (
    ground arith,
    ground arith,
    ground (arith, text_eq_sound x.principal context.principal),
    ground arith,
  )

  get_identity-stored :
      (cancelled : Option Error) (id : Text) (store : IdentityStore) (x : IdentityRecord)
      → get_identity cancelled id store ≡ ok (some x)
      → store.records id ≡ some x
  unfolding get_identity
  get_identity-stored cancelled id store x e = ground arith

  pub authorized_identity-IsOwned :
      (id : Text) (request : IdentityRecord → AuthorizationRequest) (context : RequestContext)
      (s : Hosting W) (r : IdentityRecord)
      → (authorized_identity lib platform id request context s).0 ≡ ok (some r)
      → IsOwned platform s id context (request r) r
  unfolding authorized_identity
  authorized_identity-IsOwned id request context s r e =
      elim (Outcome-cases (get_identity (platform.cancelled s.external) id s.identities)) [
        | inl (failure, failed) ↦ absurd (ground arith)
        | inr (none, missing) ↦ absurd (ground arith)
        | inr (some x, found) ↦
            elim (Outcome-cases (platform.authorize (request x) context s.external).0) [
              | inl (failure, failed) ↦ absurd (ground arith)
              | inr (b, admitted) ↦
                  let (same, yes_, owner, has_owner) =
                    owned_identity-parts context x r b (ground arith) in
                  subst (λ y. IsOwned platform s id context (request y) y) same
                    (record {
                      stored =
                          get_identity-stored (platform.cancelled s.external) id s.identities x
                            found;
                      owner = owner;
                      has_owner = has_owner;
                      admitted = admitted ∙ ap ok yes_;
                    })
            ]
      ]

  pub authorized_identity-keeps :
      (id : Text) (request : IdentityRecord → AuthorizationRequest) (context : RequestContext)
      (s : Hosting W)
      → (authorized_identity lib platform id request context s).1.identities ≡ s.identities
  unfolding authorized_identity
  authorized_identity-keeps id request context s =
      elim (Outcome-cases (get_identity (platform.cancelled s.external) id s.identities)) [
        | inl (failure, failed) ↦ ground arith
        | inr (none, missing) ↦ ground arith
        | inr (some x, found) ↦
            elim (Outcome-cases (platform.authorize (request x) context s.external).0) [
              | inl (failure, failed) ↦ ground arith
              | inr (b, admitted) ↦ ground arith
            ]
      ]
