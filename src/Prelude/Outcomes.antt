-- ===== src/Prelude/Outcomes.antt =====
-- Results of fallible calls: a Go `(value, error)` pair of which exactly one part is meaningful.
use mathlib.Core.Path.{◌≡◌, refl, ap}
use mathlib.Core.Logic.{◌⊎◌, inl, inr}
use mathlib.Core.Bool.{Bool, true, false}
use Prim.Native.String.{String}
use mathlib.Core.List.{List}
use native.Mathlib.Omega.{arith}
use aep_go.Prelude.Strings.{Text}

-- An `error` value, known by its text, or a `requirementsUnmetError` with what it carries.
-- `blocked` stands for no error of the source: it marks a call that would have to wait for another
-- caller.
pub data Error : Type 0 where
  error : String → Error
  unmet : (requirements document_ids : List Text) → Error
  blocked : Error

pub data Outcome {ℓ} (A : Type ℓ) : Type ℓ where
  err : Error → Outcome A
  ok : A → Outcome A

-- What follows a call that returned no error.
module _ {ℓ κ} {A : Type ℓ} {B : Type κ} where
  infixl 5 ◌>>=◌
  abbrev pub ◌>>=◌ : Outcome A → (A → Outcome B) → Outcome B
  err failure >>= next = err failure
  ok value >>= next = next value

-- What follows a check.
module _ {ℓ} {B : Type ℓ} where
  infixl 5 ◌>>◌
  abbrev pub ◌>>◌ : Outcome (Unit {0}) → Outcome B → Outcome B
  err failure >> rest = err failure
  ok _ >> rest = rest

-- `if test { return err }`
abbrev pub fail_if : Bool → Error → Outcome (Unit {0})
fail_if false failure = ok tt
fail_if true failure = err failure

pub Outcome-cases {ℓ} :
    {A : Type ℓ} (m : Outcome A)
    → ((failure : Error) × (m ≡ err failure)) ⊎ ((value : A) × (m ≡ ok value))
Outcome-cases (err failure) = inl (failure, refl)
Outcome-cases (ok value) = inr (value, refl)

-- What a result without error says of the parts.
pub bind-ok {ℓ κ} :
    {A : Type ℓ} {B : Type κ} (m : Outcome A) (next : A → Outcome B) {b : B}
    → (m >>= next) ≡ ok b
    → (a : A) × (m ≡ ok a) × (next a ≡ ok b)
bind-ok (err failure) next e = absurd (ground arith)
bind-ok (ok value) next e = (value, refl, e)

pub check-ok {ℓ} :
    {B : Type ℓ} (m : Outcome (Unit {0})) (rest : Outcome B) {b : B}
    → (m >> rest) ≡ ok b
    → (m ≡ ok tt) × (rest ≡ ok b)
check-ok (err failure) rest e = absurd (ground arith)
check-ok (ok u) rest e = (refl, e)

pub ok_injective {ℓ} : {A : Type ℓ} (a b : A) → ok a ≡ ok b → a ≡ b
ok_injective {A} a b e = ap (value_or a) e
  where
    value_or : A → Outcome A → A
    value_or c (err failure) = c
    value_or c (ok value) = value
