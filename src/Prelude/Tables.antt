-- ===== src/Prelude/Tables.antt =====
-- A Go map with string keys, as the function that a lookup computes.
use mathlib.Core.Path.{◌≡◌}
use mathlib.Core.Bool.{Bool}
use mathlib.Core.Option.{Option, none, some}
use aep_go.Prelude.Tests.{if◌then◌else◌}
use aep_go.Prelude.Strings.{Text, text_eq, text_eq_refl}

abbrev pub Table {ℓ} : Type ℓ → Type ℓ
Table V = Text → Option V

module _ {ℓ} {V : Type ℓ} where
  abbrev pub empty : Table V
  empty k = none

  -- `m[k] = v`
  abbrev pub put : Text → V → Table V → Table V
  put k v m j = if text_eq k j then some v else m j

  -- `delete(m, k)`
  abbrev pub delete : Text → Table V → Table V
  delete k m j = if text_eq k j then none else m j

  -- `for key, value := range m { if !test(value) { delete(m, key) } }`
  abbrev pub retain : (V → Bool) → Table V → Table V
  retain test m j = elim (m j) [ none ↦ none | some v ↦ if test v then some v else none ]

  pub put_self : (k : Text) (v : V) (m : Table V) → put k v m k ≡ some v
  put_self k v m = rw (text_eq_refl k)

  pub delete_self : (k : Text) (m : Table V) → delete k m k ≡ none
  delete_self k m = rw (text_eq_refl k)
