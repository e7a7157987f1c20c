-- ===== src/Aep/Responses.antt =====
-- service/types.go and platform/types.go: the results, stored responses and idempotency results that
-- both packages declare alike.
use aep_go.Prelude.{List, Option, Text, ℕ}
use aep_go.Aep.Types.{ProblemDetails, Time}

-- `http.Header`: the fields in the order in which they are set.
abbrev pub Header : Type 0
Header = List (Text × Text)

-- `Result[Body]`; a problem leaves the body at its zero value, `none` here.
pub record Reply {ℓ} (Body : Type ℓ) : Type ℓ where
  pub body : Option Body
  pub content_type : Text
  pub headers : Header
  pub problem : Option ProblemDetails
  pub status : ℕ

pub record StoredResponse : Type 0 where
  pub body : Text
  pub content_type : Text
  pub created_at : Time
  pub headers : Header
  pub status : ℕ

pub data IdempotencyResult : Type 0 where
  created replayed : StoredResponse → IdempotencyResult
  conflict : IdempotencyResult
