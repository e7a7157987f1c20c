-- ===== src/Platform/Listing/Pages.antt =====
-- The pages of a listing.
use aep_go.Prelude.{
  List, Outcome, Text, [], ap, arith, drop, length, none, ok, refl, suc, sym, take, zero, ℕ, ◌*◌,
  ◌++◌, ◌+◌, ◌>>=◌, ◌∷◌, ◌≡◌, ◌≢◌,
}
use aep_go.Prelude.Int64.{pos}
use aep_go.Platform.Listing.{list_identities, is_listed, sorted_records, limited}
use aep_go.Platform.Types.{IdentityListQuery, IdentityRecord}

abbrev pub page_query : IdentityListQuery → (size offset : ℕ) → IdentityListQuery
page_query query size offset = record query { limit = pos size; offset = pos offset }

-- The records of the pages of one size that follow one another from an offset.
unfoldable pub page_records :
    (principal : Text)
    → IdentityListQuery
    → (entries : List IdentityRecord) → (size pages offset : ℕ) → Outcome (List IdentityRecord)
unfolding list_identities
page_records principal query entries size zero offset = ok []
page_records principal query entries size (suc pages) offset =
    let following = page_records principal query entries size pages (offset + size) in
    list_identities none principal (page_query query size offset) entries >>= λ page.
    following >>= λ rest. ok (page.identities ++ rest)

take-drop :
    (n k m : ℕ) (l : List IdentityRecord) → n + k ≡ m → take n l ++ take k (drop n l) ≡ take m l
take-drop zero k m l e = ap (λ i. take i l) (omega arith)
take-drop (suc n) k zero l e = absurd (omega arith)
take-drop (suc n) zero (suc m) [] e = refl
take-drop (suc n) (suc k) (suc m) [] e = refl
take-drop (suc n) k (suc m) (x ∷ l) e = ap (◌∷◌ x) (take-drop n k m l (omega arith))

drop-drop : (n k m : ℕ) (l : List IdentityRecord) → k + n ≡ m → drop n (drop k l) ≡ drop m l
drop-drop n zero m l e = ap (λ i. drop i l) (omega arith)
drop-drop n (suc k) zero l e = absurd (omega arith)
drop-drop zero (suc k) (suc m) [] e = refl
drop-drop (suc n) (suc k) (suc m) [] e = refl
drop-drop n (suc k) (suc m) (x ∷ l) e = drop-drop n k m l (omega arith)

abbrev whole : (principal : Text) → IdentityListQuery → List IdentityRecord → List IdentityRecord
whole principal query entries = sorted_records query.descending (is_listed principal query) entries

one_page :
    (principal : Text) (query : IdentityListQuery) (entries : List IdentityRecord) (size offset : ℕ)
    → principal ≢ []
    → list_identities none principal (page_query query (suc size) offset) entries
      ≡ ok (record {
        identities =
            take
              (suc size)
              (drop offset (sorted_records query.descending (is_listed principal query) entries));
        total = length (sorted_records query.descending (is_listed principal query) entries);
      })
unfolding list_identities limited is_listed
one_page [] query entries size offset named = absurd (named refl)
one_page (c ∷ principal) query entries size offset named = ground arith

-- Reading a listing page by page gives the listing: the records of consecutive pages of one size
-- are, in order and without gap or repetition, the matching records from the first offset on, as
-- many as the pages hold.
pub pages_cover :
    (principal : Text) (query : IdentityListQuery) (entries : List IdentityRecord)
    (size pages offset : ℕ)
    → principal ≢ []
    → page_records principal query entries (suc size) pages offset
      ≡ ok (
          take
            (pages * suc size)
            (drop offset (sorted_records query.descending (is_listed principal query) entries)))
unfolding page_records
pages_cover principal query entries size zero offset named =
    let none_left : 0 ≡ 0 * suc size = omega arith in
    ap (λ n. ok (take n (drop offset (whole principal query entries)))) none_left
pages_cover principal query entries size (suc pages) offset named =
    let all_records = whole principal query entries in
    let page = one_page principal query entries size offset named in
    let following = pages_cover principal query entries size pages (offset + suc size) named in
    let next : drop (offset + suc size) all_records ≡ drop (suc size) (drop offset all_records) =
      sym (drop-drop (suc size) offset (offset + suc size) all_records refl) in
    let joined =
      take-drop (suc size) (pages * suc size) (suc pages * suc size) (drop offset all_records)
        (omega arith) in
    rw (page, following, next) (ap ok joined)
