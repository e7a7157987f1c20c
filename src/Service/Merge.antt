-- ===== src/Service/Merge.antt =====
-- service/documents.go: the claims of a record with those of a later enroll request.
use aep_go.Prelude.{Option, Outcome, Table, Text, empty, none, ok, some, ◌>>=◌}
use aep_go.Aep.Types.{ClaimValues}
use aep_go.Aep.Codec.{parse_claim_values, Stdlib, clone_claim_values}

-- Members that are decoded into a map replace those of the same name.
abbrev pub overlay : Table Text → Table Text → Table Text
overlay older newer k = elim (newer k) [ none ↦ older k | some v ↦ some v ]

-- One turn of the loop: `merged` takes the members of `claims`.
unfoldable pub absorb : Stdlib → Table Text → Option ClaimValues → Outcome (Table Text)
absorb lib merged none = ok merged
absorb lib merged (some claims) = do
  text ← lib.marshal_claims claims
  decoded ← lib.unmarshal_object text
  elim decoded [ none ↦ ok empty | some members ↦ ok (overlay merged members) ]

-- `mergeDocumentClaims`
unfoldable pub merge_document_claims :
    Stdlib → (existing supplied : Option ClaimValues) → Outcome (Option ClaimValues)
unfolding clone_claim_values parse_claim_values absorb
merge_document_claims lib none supplied = clone_claim_values lib supplied
merge_document_claims lib (some existing) supplied = do
  older ← absorb lib empty (some existing)
  merged ← absorb lib older supplied
  text ← lib.marshal_members merged
  claims ← parse_claim_values lib text
  ok (some claims)
