-- ===== src/Service/Recognition/Once.antt =====
-- What `authenticateAssertion` establishes.
use aep_go.Prelude.{
  All, List, Option-cases, Outcome, Outcome-cases, Text, ap, arith, inl, inr, none, ok, some, subst,
  sym, true, ◌∙◌, ◌≡◌, ◌≢◌,
}
use aep_go.Prelude.Int64.{◌<ℤ◌}
use aep_go.Aep.Codec.{Stdlib}
use aep_go.Aep.Types.{Time, ClientAssertionClaims, unix, AssertionOperation, second}
use aep_go.Service.Config.{Core, Service, external_call}
use aep_go.Service.Recognition.{
  replay_record, valid_assertion, verification_context, authenticate_assertion, consume,
  admit_claims,
}
use aep_go.Service.Replay.{replay_key, consume_replay, consume_all, ReplayCall}
use aep_go.Service.Replay.Safety.{
  IsFresh, accepted_is_recorded, consume_replay_iff, key_of_parts, consume_all_keeps,
}
use aep_go.Service.Types.{CommandOptions, ReplayRecord}

module _ {W : Type 0} (lib : Stdlib) (service : Service W) where
  -- The verifier returned the claims, they are valid for this Service, operation and resource at
  -- the time of the call, and their replay record was fresh and has been kept.
  pub record IsRecognized (assertion : Text) (operation : AssertionOperation) (resource : Text)
      (claims : ClientAssertionClaims) (now : Time) (before after : Core W) : Type 0 where
    pub valid : valid_assertion lib service assertion claims operation resource now ≡ true
    pub fresh : IsFresh before.replays (replay_record lib service claims) (unix now)
    pub kept :
        after.replays (replay_key (replay_record lib service claims))
        ≡ some (replay_record lib service claims)
    pub same_enrollments : after.enrollments ≡ before.enrollments

  admit_claims-IsRecognized :
      (assertion : Text) (operation : AssertionOperation) (resource : Text) (now : Time)
      (verified claims : ClientAssertionClaims) (s : Core W)
      → (admit_claims lib service assertion operation resource now (ok verified) s).0
        ≡ ok (some claims)
      → (verified ≡ claims)
        × IsRecognized assertion operation resource verified now s
            (admit_claims lib service assertion operation resource now (ok verified) s).1
  unfolding admit_claims consume
  admit_claims-IsRecognized assertion operation resource now verified claims s e =
      elim (Option-cases (service.cancelled s.external)) [
        | inr (failure, stopped) ↦ absurd (ground arith)
        | inl going ↦
            let presented : ReplayRecord = replay_record lib service verified in
            let accepted : (consume_replay none presented (unix now) s.replays).0 ≡ ok true =
              ground arith in
            (
              ground arith,
              record {
                valid = ground arith;
                fresh = (consume_replay_iff presented (unix now) s.replays).0 accepted;
                kept = ground (arith, accepted_is_recorded presented (unix now) s.replays accepted);
                same_enrollments = ground arith;
              },
            )
      ]

  -- The reading of the clock that a call makes first, and what it leaves.
  abbrev pub clocked : Core W → Time × Core W
  clocked s = let (now, w) = service.clock s.external in (now, record s { external = w })

  abbrev pub verified_core :
      CommandOptions
      → AssertionOperation
      → (resource : Text) → Core W
      → Outcome ClientAssertionClaims × Core W
  verified_core options operation resource s =
      let (now, s') = clocked s in
      external_call
        (service.verifier options.client_assertion
          (verification_context lib service options operation resource now))
        s'

  -- Claims are recognized only if the verifier returned them, they are valid for this Service,
  -- operation and resource at the time of the call, and no live replay record has their subject
  -- and JWT ID; their replay record is then kept, and no enrollment changes.
  pub authenticate_assertion-IsRecognized :
      (options : CommandOptions) (operation : AssertionOperation) (resource : Text)
      (claims : ClientAssertionClaims) (s : Core W)
      → (authenticate_assertion lib service options operation resource s).0 ≡ ok (some claims)
      → ((verified_core options operation resource s).0 ≡ ok claims)
        × IsRecognized options.client_assertion operation resource claims
            (clocked s).0
            s
            (authenticate_assertion lib service options operation resource s).1
  unfolding authenticate_assertion
  authenticate_assertion-IsRecognized options operation resource claims s e =
      let (outcome, s') = verified_core options operation resource s in
      let assertion : Text = options.client_assertion in
      let now : Time = (clocked s).0 in
      elim (Outcome-cases outcome) [
        | inl (failure, failed) ↦ absurd (ground arith)
        | inr (verified, done) ↦
            let same_run : authenticate_assertion lib service options operation resource s
                ≡ admit_claims lib service assertion operation resource now (ok verified) s' =
              ground arith in
            let (same, h') =
              admit_claims-IsRecognized assertion operation resource now verified claims s'
                (ap (λ q. q.0) (sym same_run) ∙ e) in
            let h : IsRecognized assertion operation resource verified now s
                (admit_claims lib service assertion operation resource now (ok verified) s').1 =
              record {
                valid = h'.valid;
                fresh = h'.fresh;
                kept = h'.kept;
                same_enrollments = h'.same_enrollments;
              } in
            (
              done ∙ ap ok same,
              subst
                  (λ p.
                    IsRecognized assertion operation resource p now s
                      (authenticate_assertion lib service options operation resource s).1)
                  same
                  (subst (λ q. IsRecognized assertion operation resource verified now s q.1)
                    (sym same_run) h),
            )
      ]

  -- Once claims are recognized, no claims with their subject and JWT ID are recognized again, for
  -- any operation and resource, while the clock is before their expiry plus the skew: whatever
  -- assertions are presented in between, as long as those calls are before that time too.
  pub recognized_once :
      (options later_options : CommandOptions) (operation later_operation : AssertionOperation)
      (resource later_resource : Text) (claims again : ClientAssertionClaims) (s t : Core W)
      (calls : List ReplayCall)
      → (authenticate_assertion lib service options operation resource s).0 ≡ ok (some claims)
      → t.replays
        ≡ (consume_all calls
            (authenticate_assertion lib service options operation resource s).1.replays).1
      → All (λ c. c.now <ℤ (replay_record lib service claims).expires_at) calls
      → again.subject ≡ claims.subject
      → again.jwt_id ≡ claims.jwt_id
      → unix (clocked t).0 <ℤ (replay_record lib service claims).expires_at
      → (authenticate_assertion lib service later_options later_operation later_resource t).0
        ≢ ok (some again)
  recognized_once options later_options operation later_operation resource later_resource claims
        again s t calls e same_replays live same_subject same_id now e' =
      let (_, first) = authenticate_assertion-IsRecognized options operation resource claims s e in
      let (_, second) =
        authenticate_assertion-IsRecognized later_options later_operation later_resource again t
          e' in
      let kept = consume_all_keeps calls (replay_record lib service claims) _ first.kept live in
      let same : replay_key (replay_record lib service again)
          ≡ replay_key (replay_record lib service claims) =
        key_of_parts (replay_record lib service again) (replay_record lib service claims)
          same_subject same_id in
      let found : t.replays (replay_key (replay_record lib service again))
          ≡ some (replay_record lib service claims) =
        rw same (rw same_replays kept) in
      omega (arith, second.fresh.3 (replay_record lib service claims) found)
