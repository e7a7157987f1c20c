-- ===== src/Platform/Operations/Owned.antt =====
-- The operations of a Platform act on what their caller owns.
use aep_go.Prelude.{
  Bool, Bool-cases, Error, Option, Option-cases, Outcome-cases, Text, ap, arith, false, inl, inr,
  none, not, refl, some, subst, sym, text_eq, text_eq_sound, true, ◌&&◌, ◌==◌, ◌∙◌, ◌≡◌, ◌⊎◌,
}
use aep_go.Platform.Identities.{update_identity}
use aep_go.Platform.Types.{RequestContext, LifecycleRequest}
use aep_go.Platform.Types.{
  RequestContext, IdentityRecord, is_managed_agent_status, ManagedAgentStatus, AuthorizationRequest,
}
use aep_go.Aep.Codec.{Stdlib}
use aep_go.Aep.Types.{Time}
use aep_go.Platform.Config.{Hosting, Platform, hosting_clock}
use aep_go.Platform.Identities.{IdentityStore}
use aep_go.Platform.Operations.{
  stored_update, authorized_identity, update_hosted_identity, transition,
}
use aep_go.Platform.Operations.Authorized.{authorized_identity-IsOwned, authorized_identity-keeps}

-- The record is as it was, or it is the owner's record under the identifier, with a registered
-- status and a new time of update, and the same in everything else.
pub record OwnedChange (id principal : Text) (new_status : ManagedAgentStatus)
    (before after : IdentityStore) : Type 0 where
  pub change_at :
      (k : Text)
      → (after.records k ≡ before.records k)
        ⊎ ((id ≡ k)
            × ((r : IdentityRecord) × ((now : Time) × (before.records k ≡ some r)
                  × (r.principal ≡ principal)
                  × (is_managed_agent_status new_status ≡ true)
                  × (after.records k ≡ some (record r { status = new_status; updated_at = now })))))

abbrev unchanged :
    (id principal : Text) (new_status : ManagedAgentStatus) (store : IdentityStore)
    → OwnedChange id principal new_status store store
unchanged id principal new_status store = record { change_at = λ k. inl refl }

update_identity-OwnedChange :
    (cancelled : Option Error) (id principal : Text) (new_status : ManagedAgentStatus) (now : Time)
    (store : IdentityStore) (r : IdentityRecord)
    → store.records id ≡ some r
    → r.principal ≡ principal
    → OwnedChange id principal new_status store
        (update_identity cancelled id new_status now store).1
unfolding update_identity
update_identity-OwnedChange cancelled id principal new_status now store r stored owner = record {
  change_at = λ k. elim (Option-cases cancelled) [
    | inr (e, stopped) ↦ inl (ground arith)
    | inl going ↦ elim (Bool-cases (is_managed_agent_status new_status && not (now == 0))) [
      | inr invalid ↦ inl (ground arith)
      | inl valid ↦ elim (Bool-cases (text_eq id k)) [
        | inr other ↦ inl (ground arith)
        | inl at ↦
            let same : id ≡ k = text_eq_sound id k at in
            inr (
              same,
              (r, (now, ap store.records (sym same) ∙ stored, owner, ground arith, ground arith)),
            )
      ]
    ]
  ];
}

module _ {W Key : Type 0} (lib : Stdlib) (platform : Platform W Key) where
  transition-OwnedChange :
      (id principal : Text) (request : LifecycleRequest) (r : IdentityRecord) (allowed : Bool)
      (s : Hosting W)
      → s.identities.records id ≡ some r
      → r.principal ≡ principal
      → OwnedChange id principal request.status s.identities
          (transition lib platform id request r allowed s).1.identities
  unfolding transition
  transition-OwnedChange id principal request r false s stored owner =
      unchanged id principal request.status s.identities
  transition-OwnedChange id principal request r true s stored owner =
      let (now, t) = hosting_clock platform s in
      let change =
        update_identity-OwnedChange (platform.cancelled t.external) id principal request.status now
          s.identities r stored owner in
      elim (Outcome-cases (stored_update lib platform id request.status now t).0) [
        | inl (failure, failed) ↦
            subst (OwnedChange id principal request.status s.identities) (ground arith) change
        | inr (none, missing) ↦
            subst (OwnedChange id principal request.status s.identities) (ground arith) change
        | inr (some x, done) ↦
            subst (OwnedChange id principal request.status s.identities) (ground arith) change
      ]

  -- UpdateIdentity changes at most the record under the identifier of the request, and that only if
  -- it belongs to the principal of the request: the record gets the registered status that was asked
  -- for and a new time of update, and stays the same in everything else.
  pub update_hosted_identity-OwnedChange :
      (id : Text) (request : LifecycleRequest) (context : RequestContext) (s : Hosting W)
      → OwnedChange id context.principal request.status s.identities
          (update_hosted_identity lib platform id request context s).1.identities
  unfolding update_hosted_identity
  update_hosted_identity-OwnedChange id request context s =
      let request_of : IdentityRecord → AuthorizationRequest =
        λ r. AuthorizationRequest.update_identity r request in
      let found = authorized_identity lib platform id request_of context s in
      let kept = authorized_identity-keeps lib platform id request_of context s in
      let Q = OwnedChange id context.principal request.status s.identities in
      let same : Q s.identities = unchanged id context.principal request.status s.identities in
      elim (Bool-cases (is_managed_agent_status request.status)) [
        | inr invalid ↦ subst Q (ground arith) same
        | inl valid ↦ elim (Outcome-cases found.0) [
          | inl (failure, failed) ↦ subst Q (ground arith) same
          | inr (none, missing) ↦ subst Q (ground arith) same
          | inr (some r, owned) ↦
              let o = authorized_identity-IsOwned lib platform id request_of context s r owned in
              let (allowed, w) =
                platform.can_transition r request.status context found.1.external in
              let t : Hosting W = record found.1 { external = w } in
              elim (Outcome-cases allowed) [
                | inl (failure, failed) ↦ subst Q (ground arith) same
                | inr (b, answered) ↦
                    let changed : Q (transition lib platform id request r b t).1.identities =
                      subst
                        (λ (i : IdentityStore).
                          OwnedChange id context.principal request.status i
                            (transition lib platform id request r b t).1.identities)
                        kept
                        (transition-OwnedChange id context.principal request r b t
                          (ap (λ (i : IdentityStore). i.records id) kept ∙ o.stored) o.owner) in
                    subst Q (ground arith) changed
              ]
        ]
      ]
