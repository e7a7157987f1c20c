-- ===== src/Platform/Listing/Visits.antt =====
-- A listing does not depend on the order in which Go visits the map.
use aep_go.Prelude.{
  All, All-perm, Bool, Bool-cases, Error, List, Option, Table, Text, ap, arith, inl, inr, refl,
  some, subst, sym, ◌∙◌, ◌∷◌, ◌≡◌,
}
use aep_go.Platform.Listing.{list_identities}
use mathlib.Core.List.{Permᴰ}
use aep_go.Platform.Listing.{insert, sorted_records, is_listed, goes_first}
use aep_go.Platform.Listing.Order.{goes_first_total, insert_comm_first}
use aep_go.Platform.Types.{IdentityListQuery, IdentityRecord}

-- The entry stands in the table under its identifier.
abbrev pub Stands : Table IdentityRecord → IdentityRecord → Type 0
Stands records r = records r.agent_identity_id ≡ some r

module _ (records : Table IdentityRecord) (descending : Bool) (listed : IdentityRecord → Bool) where
  insert_comm :
      (a b : IdentityRecord) (l : List IdentityRecord)
      → Stands records a
      → Stands records b
      → insert descending a (insert descending b l) ≡ insert descending b (insert descending a l)
  insert_comm a b l h g = elim (Bool-cases (goes_first descending a b)) [
    | inl first ↦ insert_comm_first descending a b l first
    | inr later ↦ elim (Bool-cases (goes_first descending b a)) [
      | inl first ↦ sym (insert_comm_first descending b a l first)
      | inr same ↦
          let ids = goes_first_total descending a b later same in
          let it : a ≡ b = ground arith in
          subst
            (λ x.
              insert descending a (insert descending x l)
              ≡ insert descending x (insert descending a l))
            it refl
    ]
  ]

  sorted_swap :
      (a b : IdentityRecord) (l : List IdentityRecord)
      → Stands records a
      → Stands records b
      → sorted_records descending listed (a ∷ b ∷ l) ≡ sorted_records descending listed (b ∷ a ∷ l)
  unfolding sorted_records
  sorted_swap a b l h g = ground (arith, insert_comm a b (sorted_records descending listed l) h g)

  sorted_cons :
      (a : IdentityRecord) (l r : List IdentityRecord)
      → sorted_records descending listed l ≡ sorted_records descending listed r
      → sorted_records descending listed (a ∷ l) ≡ sorted_records descending listed (a ∷ r)
  unfolding sorted_records
  sorted_cons a l r e = cc

  sorted_perm :
      {l r : List IdentityRecord}
      → Permᴰ l r
      → All (Stands records) l
      → sorted_records descending listed l ≡ sorted_records descending listed r
  sorted_perm Permᴰ.nil h = refl
  sorted_perm (Permᴰ.cons {a} {b} {l₁} {l₂} e d) (now, later) =
      sorted_cons a l₁ l₂ (sorted_perm d later)
      ∙ ap (λ x. sorted_records descending listed (x ∷ l₂)) e
  sorted_perm (Permᴰ.swap {a} {b} {a'} {b'} {l} e f) (one, (two, rest)) =
      sorted_swap a b l one two
      ∙ (ap (λ x. sorted_records descending listed (x ∷ a ∷ l)) f
          ∙ ap (λ x. sorted_records descending listed (a' ∷ x ∷ l)) e)
  sorted_perm (Permᴰ.trans d e) h = sorted_perm d h ∙ sorted_perm e (All-perm (Stands records) d h)

-- Whatever the order in which the records of a store are visited, the listing is the same.
pub list_identities-perm :
    (records : Table IdentityRecord) (cancelled : Option Error) (principal : Text)
    (query : IdentityListQuery) (entries entries' : List IdentityRecord)
    → Permᴰ entries entries'
    → All (Stands records) entries
    → list_identities cancelled principal query entries
      ≡ list_identities cancelled principal query entries'
unfolding list_identities
list_identities-perm records cancelled principal query entries entries' order h =
    let same = sorted_perm records query.descending (is_listed principal query) order h in
    ground arith
