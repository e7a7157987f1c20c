-- ===== src/Service/Limits/Exact.antt =====
-- The single pass over a value computes its shape and its number of members.
use aep_go.Prelude.{Bool, Text, arith, leb, suc, true, ℕ, ◌&&◌, ◌+◌, ◌≡◌, ◌≤◌}
use aep_go.Aep.Json.{
  Json, Elements, Members, null, boolean, number, string, array, object, nil, cons, end, member,
}
use aep_go.Service.Config.{ClaimValueLimits}
use aep_go.Service.Limits.{claim_value_within_limits, elements_within_limits, members_within_limits}

module _ (rune_count : Text → ℕ) (limits : ClaimValueLimits) where
  unfoldable mutual
    -- Every string and name is short enough, and nothing is nested too deeply.
    pub has_small_parts : Json → (depth : ℕ) → Bool
    has_small_parts null depth = true
    has_small_parts (boolean b) depth = true
    has_small_parts (number text) depth = true
    has_small_parts (string text) depth = leb (rune_count text) limits.max_string_length
    has_small_parts (array values) depth =
        leb depth limits.max_object_depth && has_small_elements values (suc depth)
    has_small_parts (object values) depth =
        leb depth limits.max_object_depth && has_small_members values (suc depth)

    pub has_small_elements : Elements → (depth : ℕ) → Bool
    has_small_elements nil depth = true
    has_small_elements (cons value values) depth =
        has_small_parts value depth && has_small_elements values depth

    pub has_small_members : Members → (depth : ℕ) → Bool
    has_small_members end depth = true
    has_small_members (member name value values) depth =
        leb (rune_count name) limits.max_string_length
        && has_small_parts value depth
        && has_small_members values depth

unfoldable mutual
  -- The members of all objects within a value.
  pub count_members : Json → ℕ
  count_members null = 0
  count_members (boolean b) = 0
  count_members (number text) = 0
  count_members (string text) = 0
  count_members (array values) = count_in_elements values
  count_members (object values) = count_in_members values

  pub count_in_elements : Elements → ℕ
  count_in_elements nil = 0
  count_in_elements (cons value values) = count_members value + count_in_elements values

  pub count_in_members : Members → ℕ
  count_in_members end = 0
  count_in_members (member name value values) = suc (count_members value + count_in_members values)

-- What a pass that starts with `counted` members answers.
abbrev IsExact : ℕ → ℕ → Bool → ℕ → Bool × ℕ → Type 0
IsExact maximum counted small count (within, after) =
    (within ≡ (small && leb (counted + count) maximum)) × (within ≡ true → after ≡ counted + count)

module _ (rune_count : Text → ℕ) (limits : ClaimValueLimits) where
  mutual
    unfolding has_small_parts count_members claim_value_within_limits

    value-IsExact :
        (value : Json) (depth counted : ℕ)
        → counted ≤ limits.max_member_count
        → IsExact limits.max_member_count counted
            (has_small_parts rune_count limits value depth)
            (count_members value)
            (claim_value_within_limits rune_count limits value depth counted)
    value-IsExact null depth counted h = ground arith
    value-IsExact (boolean b) depth counted h = ground arith
    value-IsExact (number text) depth counted h = ground arith
    value-IsExact (string text) depth counted h = ground arith
    value-IsExact (array values) depth counted h =
        ground (arith, elements-IsExact values (suc depth) counted h)
    value-IsExact (object values) depth counted h =
        ground (arith, members-IsExact values (suc depth) counted h)

    elements-IsExact :
        (values : Elements) (depth counted : ℕ)
        → counted ≤ limits.max_member_count
        → IsExact limits.max_member_count counted
            (has_small_elements rune_count limits values depth)
            (count_in_elements values)
            (elements_within_limits rune_count limits values depth counted)
    elements-IsExact nil depth counted h = ground arith
    elements-IsExact (cons value values) depth counted h =
        let (within, after) = value-IsExact value depth counted h in
        ground (arith, elements-IsExact values depth (counted + count_members value))

    members-IsExact :
        (values : Members) (depth counted : ℕ)
        → counted ≤ limits.max_member_count
        → IsExact limits.max_member_count counted
            (has_small_members rune_count limits values depth)
            (count_in_members values)
            (members_within_limits rune_count limits values depth counted)
    members-IsExact end depth counted h = ground arith
    members-IsExact (member name value values) depth counted h = ground (
      arith,
      value-IsExact value depth (suc counted),
      members-IsExact values depth (suc counted + count_members value),
    )

-- A value passes from depth 1 exactly when every string and name in it is short enough, nothing in
-- it is nested too deeply, and its objects have together no more members than allowed.
pub claim_value_within_limits_exact :
    (rune_count : Text → ℕ) (limits : ClaimValueLimits) (value : Json)
    → (claim_value_within_limits rune_count limits value 1 0).0 ≡ (
        has_small_parts rune_count limits value 1
        && leb (count_members value) limits.max_member_count)
claim_value_within_limits_exact rune_count limits value =
    ground (arith, value-IsExact rune_count limits value 1 0)
