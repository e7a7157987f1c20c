-- ===== src/Service/Limits.antt =====
-- service/claims.go: the limits on the claims of an enroll request. The members of a JSON object
-- are visited in the order in which they stand; `Go` takes any order.
pub mod Exact
use aep_go.Prelude.{
  Bool, Option, Text, err, false, if◌then◌else◌, leb, length, ltb, none, ok, some, suc, true, ℕ,
  ◌||◌,
}
use aep_go.Aep.Json.{
  Json, Elements, Members, null, boolean, number, string, array, object, nil, cons, end, member,
}
use aep_go.Aep.Types.{ClaimValues}
use aep_go.Aep.Codec.{Stdlib}
use aep_go.Service.Config.{ClaimValueLimits}

module _ (rune_count : Text → ℕ) (limits : ClaimValueLimits) where
  unfoldable mutual
    -- `claimValueWithinLimits` with the members counted before; it returns the members counted.
    pub claim_value_within_limits : Json → (depth members : ℕ) → Bool × ℕ
    claim_value_within_limits null depth members = (true, members)
    claim_value_within_limits (boolean b) depth members = (true, members)
    claim_value_within_limits (number text) depth members = (true, members)
    claim_value_within_limits (string text) depth members =
        (leb (rune_count text) limits.max_string_length, members)
    claim_value_within_limits (array values) depth members =
        if ltb limits.max_object_depth depth
        then (false, members)
        else elements_within_limits values (suc depth) members
    claim_value_within_limits (object values) depth members =
        if ltb limits.max_object_depth depth
        then (false, members)
        else members_within_limits values (suc depth) members

    pub elements_within_limits : Elements → (depth members : ℕ) → Bool × ℕ
    elements_within_limits nil depth members = (true, members)
    elements_within_limits (cons value values) depth members =
        let (within, counted) = claim_value_within_limits value depth members in
        let rest = elements_within_limits values depth counted in
        if within then rest else (false, counted)

    pub members_within_limits : Members → (depth members : ℕ) → Bool × ℕ
    members_within_limits end depth members = (true, members)
    members_within_limits (member name value values) depth members =
        let (within, counted) = claim_value_within_limits value depth (suc members) in
        let rest = members_within_limits values depth counted in
        if ltb limits.max_member_count (suc members)
          || ltb limits.max_string_length (rune_count name)
        then (false, suc members)
        else if within
        then rest
        else (false, counted)

-- `claimValuesWithinLimits`
unfoldable pub claim_values_within_limits : Stdlib → ClaimValueLimits → Option ClaimValues → Bool
unfolding claim_value_within_limits
claim_values_within_limits lib limits none = true
claim_values_within_limits lib limits (some claims) = elim (lib.marshal_claims claims) [
  | err e ↦ false
  | ok encoded ↦
      if ltb limits.max_encoded_bytes (length encoded)
      then false
      else elim (lib.decode_value encoded) [
        | err e ↦ false
        | ok document ↦ (claim_value_within_limits lib.rune_count limits document 1 0).0
      ]
]
