-- ===== src/Platform/Listing/Order.antt =====
-- What a listing owes to the map it is taken from: nothing of the order of visits.
use aep_go.Prelude.{Bool, List, Text, [], arith, false, refl, true, ◌∷◌, ◌≡◌}
use aep_go.Platform.Listing.{is_older, text_ltb, goes_first, insert}
use aep_go.Platform.Types.{IdentityRecord}

text_ltb_trans : (s t u : Text) → text_ltb s t ≡ true → text_ltb t u ≡ true → text_ltb s u ≡ true
unfolding text_ltb
text_ltb_trans [] [] u h g = ground arith
text_ltb_trans [] (b ∷ t) [] h g = ground arith
text_ltb_trans [] (b ∷ t) (c ∷ u) h g = refl
text_ltb_trans (a ∷ s) [] u h g = ground arith
text_ltb_trans (a ∷ s) (b ∷ t) [] h g = ground arith
text_ltb_trans (a ∷ s) (b ∷ t) (c ∷ u) h g = ground (arith, text_ltb_trans s t u)

text_ltb_asym : (s t : Text) → text_ltb s t ≡ true → text_ltb t s ≡ false
unfolding text_ltb
text_ltb_asym [] [] h = ground arith
text_ltb_asym [] (b ∷ t) h = refl
text_ltb_asym (a ∷ s) [] h = ground arith
text_ltb_asym (a ∷ s) (b ∷ t) h = ground (arith, text_ltb_asym s t)

text_ltb_total : (s t : Text) → text_ltb s t ≡ false → text_ltb t s ≡ false → s ≡ t
unfolding text_ltb
text_ltb_total [] [] h g = refl
text_ltb_total [] (b ∷ t) h g = absurd (ground arith)
text_ltb_total (a ∷ s) [] h g = absurd (ground arith)
text_ltb_total (a ∷ s) (b ∷ t) h g = ground (arith, text_ltb_total s t)

module _ (descending : Bool) where
  pub goes_first_trans :
      (a b c : IdentityRecord)
      → goes_first descending a b ≡ true
      → goes_first descending b c ≡ true
      → goes_first descending a c ≡ true
  unfolding goes_first is_older
  goes_first_trans a b c h g = ground (
    arith,
    text_ltb_trans a.agent_identity_id b.agent_identity_id c.agent_identity_id,
    text_ltb_trans c.agent_identity_id b.agent_identity_id a.agent_identity_id,
  )

  pub goes_first_asym :
      (a b : IdentityRecord) → goes_first descending a b ≡ true → goes_first descending b a ≡ false
  unfolding goes_first is_older
  goes_first_asym a b h = ground (
    arith,
    text_ltb_asym a.agent_identity_id b.agent_identity_id,
    text_ltb_asym b.agent_identity_id a.agent_identity_id,
  )

  pub goes_first_total :
      (a b : IdentityRecord)
      → goes_first descending a b ≡ false
      → goes_first descending b a ≡ false
      → a.agent_identity_id ≡ b.agent_identity_id
  unfolding goes_first is_older
  goes_first_total a b h g = ground (
    arith,
    text_ltb_total a.agent_identity_id b.agent_identity_id,
    text_ltb_total b.agent_identity_id a.agent_identity_id,
  )

  pub insert_comm_first :
      (a b : IdentityRecord) (l : List IdentityRecord)
      → goes_first descending a b ≡ true
      → insert descending a (insert descending b l) ≡ insert descending b (insert descending a l)
  unfolding insert
  insert_comm_first a b [] h = ground (arith, goes_first_asym a b)
  insert_comm_first a b (z ∷ l) h =
      ground (arith, goes_first_asym a b, goes_first_trans a b z, insert_comm_first a b l)
