-- ===== src/Platform/Listing.antt =====
-- platform/stores.go, `ListIdentities`, and `List` of platform/platform.go. `entries` are the
-- records of the store in the order in which Go visits the map.
pub mod Order
pub mod Visits
pub mod Pages
use aep_go.Prelude.{
  Bool, Error, List, Option, Outcome, Table, Text, [], bytes, drop, err, error, false,
  if◌then◌else◌, is_empty, length, ltb, map, none, not, ok, some, suc, take, text_eq, true, zero, ℕ,
  ◌&&◌, ◌==◌, ◌||◌, ◌∷◌,
}
use aep_go.Prelude.Int64.{ltb_ℤ, pos, pos_part}
use aep_go.Prelude.Actions.{Action, ◌>>=◌, pure}
use aep_go.Aep.Responses.{Reply}
use aep_go.Platform.Results.{
  success_result, problem_result, bad_request, agent_identity_from_record, unknown_identity,
}
use aep_go.Platform.Types.{
  RequestContext, IdentityListResult, AuthorizationRequest, AgentIdentityListResponse,
  is_managed_agent_status, ManagedAgentStatus, IdentityListQuery, IdentityRecord,
}
use aep_go.Aep.Codec.{Stdlib}
use aep_go.Platform.Config.{Hosting, Platform, hosted_call}
use aep_go.Platform.Identifiers.{is_did, decimal}

unfoldable pub status_text : ManagedAgentStatus → Text
status_text ManagedAgentStatus.active = bytes "active"
status_text ManagedAgentStatus.revoked = bytes "revoked"
status_text ManagedAgentStatus.suspended = bytes "suspended"
status_text ManagedAgentStatus.terminated = bytes "terminated"
status_text (ManagedAgentStatus.unregistered text) = text

-- `first < second` on strings
unfoldable pub text_ltb : Text → Text → Bool
text_ltb [] [] = false
text_ltb [] (b ∷ t) = true
text_ltb (a ∷ s) [] = false
text_ltb (a ∷ s) (b ∷ t) = ltb a b || a == b && text_ltb s t

-- The record passes the filters of the query.
unfoldable pub is_listed : (principal : Text) → IdentityListQuery → IdentityRecord → Bool
unfolding status_text text_eq
is_listed principal query r = not (
    not (text_eq r.principal principal)
    || not (is_empty query.service_did) && not (text_eq r.service_did query.service_did)
    || not (is_empty (status_text query.status))
      && not (text_eq (status_text r.status) (status_text query.status)))

unfoldable pub is_older : IdentityRecord → IdentityRecord → Bool
unfolding text_ltb
is_older first second' =
    if first.created_at == second'.created_at
    then text_ltb first.agent_identity_id second'.agent_identity_id
    else ltb first.created_at second'.created_at

-- The comparison that `sort.Slice` is given.
unfoldable pub goes_first : (descending : Bool) → IdentityRecord → IdentityRecord → Bool
unfolding is_older
goes_first descending first second' =
    if descending then is_older second' first else is_older first second'

module _ (descending : Bool) where
  unfoldable pub insert : IdentityRecord → List IdentityRecord → List IdentityRecord
  unfolding goes_first
  insert r [] = r ∷ []
  insert r (x ∷ records) =
      let rest = insert r records in if goes_first descending r x then r ∷ x ∷ records else x ∷ rest

  -- The records that pass the test, sorted: different records of a store differ in the comparison,
  -- so every sort gives this list.
  unfoldable pub sorted_records :
      (IdentityRecord → Bool) → List IdentityRecord → List IdentityRecord
  unfolding insert
  sorted_records listed [] = []
  sorted_records listed (r ∷ entries) =
      let rest = sorted_records listed entries in if listed r then insert r rest else rest

-- A limit of 0 is none.
unfoldable pub limited : ℕ → List IdentityRecord → List IdentityRecord
limited zero records = records
limited (suc n) records = take (suc n) records

-- `ListIdentities`
unfoldable pub list_identities :
    Option Error
    → (principal : Text) → IdentityListQuery
    → (entries : List IdentityRecord) → Outcome IdentityListResult
unfolding is_listed sorted_records limited
list_identities (some cancelled) principal query entries = err cancelled
list_identities none principal query entries =
    if is_empty principal || ltb_ℤ query.limit (pos 0) || ltb_ℤ query.offset (pos 0)
    then err (error "AEP Platform identity list query is invalid")
    else let records = sorted_records query.descending (is_listed principal query) entries in
      ok (record {
        identities = limited (pos_part query.limit) (drop (pos_part query.offset) records);
        total = length records;
      })

-- `maximumListLimit`
abbrev pub maximum_list_limit : ℕ
maximum_list_limit = 100

unfoldable pub is_list_query : IdentityListQuery → Bool
unfolding is_did status_text is_managed_agent_status
is_list_query query = not (
    ltb_ℤ query.limit (pos 0)
    || ltb_ℤ (pos maximum_list_limit) query.limit
    || ltb_ℤ query.offset (pos 0)
    || not (is_empty query.service_did) && not (is_did query.service_did)
    || not (is_empty (status_text query.status)) && not (is_managed_agent_status query.status))

-- The query with its limit, 100 if none is given.
unfoldable pub with_limit : IdentityListQuery → IdentityListQuery
with_limit query = elim query.limit [ pos zero ↦ record query { limit = pos 100 } | _ ↦ query ]

module _ {W Key : Type 0} (lib : Stdlib) (platform : Platform W Key)
    (visit : Table IdentityRecord → List IdentityRecord) where
  unfoldable pub list_reply : IdentityListResult → Reply AgentIdentityListResponse
  unfolding agent_identity_from_record success_result decimal
  list_reply listed =
      let identities = map (agent_identity_from_record lib.format_rfc3339) listed.identities in
      success_result 200
        (record {
          count = decimal (length identities);
          identities = identities;
          total = decimal listed.total;
        })
        []

  -- `List`
  unfoldable pub list :
      IdentityListQuery → RequestContext → Action (Hosting W) (Reply AgentIdentityListResponse)
  unfolding is_list_query with_limit list_identities list_reply problem_result
  list query context =
      if not (is_list_query query)
      then pure (bad_request "Identity list query is invalid.")
      else hosted_call
          (platform.authorize (AuthorizationRequest.list_identities (with_limit query)) context)
        >>= λ authorized.
            (if not authorized || is_empty context.principal
              then pure unknown_identity
              else (λ s. (
                list_identities (platform.cancelled s.external) context.principal (with_limit query)
                    (visit s.identities.records),
                s,
              ))
                >>= λ listed. pure (list_reply listed))
