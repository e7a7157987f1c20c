-- ===== src/Service/Commands/Grant/Entitled.antt =====
-- When `Grant` reaches a handler.
use aep_go.Prelude.{
  Bool-cases, Option-cases, Outcome, Outcome-cases, Text, [], arith, inl, inr, is_empty_list-cases,
  none, ok, some, true, ◌≡◌, ◌⊎◌,
}
use aep_go.Aep.Codec.{Stdlib}
use aep_go.Aep.Types.{GrantRequest}
use aep_go.Service.Commands.Grant.{grant_run, grant_to, is_active}
use aep_go.Service.Config.{
  missing_claims, Core, find_record, Service, grant_handler, missing_document_ids, Handler,
}
use aep_go.Service.Types.{Reply, EnrollmentRecord}

module _ {W : Type 0} (lib : Stdlib) (service : Service W) (agent_did : Text)
    (request : GrantRequest) where
  -- The agent has an active record that meets the Service's requirements, and the requested Grant
  -- Type has a handler.
  pub record IsEntitled (s : Core W) : Type 0 where
    pub enrollment : EnrollmentRecord
    pub found : (find_record lib service agent_did s).0 ≡ ok (some enrollment)
    pub active : is_active enrollment.status ≡ true
    pub claims_complete : missing_claims service enrollment.claims ≡ []
    pub documents_acknowledged :
        missing_document_ids service enrollment.acknowledged_document_ids
          enrollment.required_document_ids
        ≡ []
    pub handler : Handler W
    pub handled : grant_handler service request.grant_type ≡ some handler

  -- Either nothing changes, or the handler that the request names is reached for an entitled agent.
  abbrev Reaches : Core W → Outcome (Reply Text) × Core W → Type 0
  Reaches s (outcome, s') = (s' ≡ s) ⊎ IsEntitled s

  grant_to-Reaches :
      (s : Core W) (r : EnrollmentRecord)
      → (find_record lib service agent_did s).0 ≡ ok (some r)
      → Reaches s (grant_to lib service agent_did request (some r) s)
  unfolding grant_to
  grant_to-Reaches s r found = elim (Option-cases (grant_handler service request.grant_type)) [
    | inl absent ↦ inl (ground arith)
    | inr (handler, handled) ↦ elim (Bool-cases (is_active r.status)) [
      | inr inactive ↦ inl (ground arith)
      | inl active ↦
          elim (is_empty_list-cases (missing_claims service r.claims)
            (missing_document_ids service r.acknowledged_document_ids r.required_document_ids)) [
              | inr missing ↦ inl (ground arith)
              | inl (claims, ids) ↦ inr (record {
                enrollment = r;
                found = found;
                active = active;
                claims_complete = claims;
                documents_acknowledged = ids;
                handler = handler;
                handled = handled;
              })
            ]
    ]
  ]

  -- Unless the agent has an active record that misses no required claim and no required document,
  -- and the requested Grant Type has a handler, the execution of `Grant` changes nothing of the
  -- state, so it calls no handler.
  pub grant_run-IsEntitled :
      (s : Core W) → ((grant_run lib service agent_did request s).1 ≡ s) ⊎ IsEntitled s
  unfolding grant_run
  grant_run-IsEntitled s = elim (Outcome-cases (find_record lib service agent_did s).0) [
    | inl (failure, failed) ↦ inl (ground arith)
    | inr (none, absent) ↦ inl (ground arith)
    | inr (some r, found) ↦ elim (grant_to-Reaches s r found) [
      | inl same ↦ inl (ground arith)
      | inr entitled ↦ inr entitled
    ]
  ]
