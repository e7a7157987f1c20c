-- ===== src/Prelude/Actions.antt =====
-- Calls that may fail and that change a state; what was written before a failure stays written.
use aep_go.Prelude.Outcomes.{Outcome, ok, err, Error}

abbrev pub Action : Type 0 → Type 0 → Type 0
Action S A = S → Outcome A × S

module _ {S : Type 0} where
  infixl 5 ◌>>=◌ ◌>>◌
  abbrev pub ◌>>=◌ : {A B : Type 0} → Action S A → (A → Action S B) → Action S B
  ◌>>=◌ m f s = let (r, s') = m s in elim r [ ok a ↦ f a s' | err e ↦ (err e, s') ]

  abbrev pub ◌>>◌ : {A B : Type 0} → Action S A → Action S B → Action S B
  m >> k = m >>= λ _. k

  abbrev pub pure : {A : Type 0} → A → Action S A
  pure a s = (ok a, s)

  abbrev pub raise : {A : Type 0} → Error → Action S A
  raise e s = (err e, s)

  -- A result that needs no state.
  abbrev pub lift : {A : Type 0} → Outcome A → Action S A
  lift r s = (r, s)

  -- The outcome of a call whose error the caller looks at.
  abbrev pub attempt : {A : Type 0} → Action S A → Action S (Outcome A)
  attempt m s = let (r, s') = m s in (ok r, s')
