-- ===== src/Aep/Bytes.antt =====
-- The functions of package `strings` that the checks use, on the bytes of a string.
use aep_go.Prelude.{
  Bool, List, Option, Text, [], false, if◌then◌else◌, leb, none, some, suc, true, ℕ, ◌&&◌, ◌==◌,
  ◌||◌, ◌∷◌,
}

abbrev pub is_digit : ℕ → Bool
is_digit c = leb b'0' c && leb c b'9'

abbrev pub is_upper : ℕ → Bool
is_upper c = leb b'A' c && leb c b'Z'

abbrev pub is_lower : ℕ → Bool
is_lower c = leb b'a' c && leb c b'z'

abbrev pub is_alphanumeric : ℕ → Bool
is_alphanumeric c = is_digit c || is_upper c || is_lower c

-- `strings.HasPrefix`
unfoldable pub has_prefix : Text → Text → Bool
has_prefix text [] = true
has_prefix [] (p ∷ prefix) = false
has_prefix (c ∷ text) (p ∷ prefix) = c == p && has_prefix text prefix

abbrev pub last_byte : Text → Option ℕ
last_byte [] = none
last_byte (c ∷ []) = some c
last_byte (c ∷ d ∷ text) = last_byte (d ∷ text)

-- The text without its last byte.
abbrev pub but_last : Text → Text
but_last [] = []
but_last (c ∷ []) = []
but_last (c ∷ d ∷ text) = c ∷ but_last (d ∷ text)

-- `strings.HasSuffix` for a suffix of one byte.
abbrev pub ends_with : Text → ℕ → Bool
ends_with text c = elim (last_byte text) [ none ↦ false | some d ↦ d == c ]

-- `strings.IndexByte`, `none` for -1.
unfoldable pub index_byte : Text → ℕ → Option ℕ
index_byte [] b = none
index_byte (c ∷ text) b =
    if c == b then some 0 else elim (index_byte text b) [ none ↦ none | some i ↦ some (suc i) ]

-- `strings.ContainsRune` for an ASCII rune, `strings.Contains` for one byte.
unfoldable pub contains_byte : Text → ℕ → Bool
contains_byte [] b = false
contains_byte (c ∷ text) b = c == b || contains_byte text b

abbrev cons_part : ℕ → List Text → List Text
cons_part c [] = (c ∷ []) ∷ []
cons_part c (part ∷ parts) = (c ∷ part) ∷ parts

-- `strings.Split` at one byte.
unfoldable pub split : Text → ℕ → List Text
split [] b = [] ∷ []
split (c ∷ text) b = let rest = split text b in if c == b then [] ∷ rest else cons_part c rest

-- `strings.Cut` at one byte: what stands before it, and what stands after it if it occurs.
unfoldable pub cut : Text → ℕ → Text × Option Text
cut [] b = ([], none)
cut (c ∷ text) b =
    let (before, after) = cut text b in if c == b then ([], some text) else (c ∷ before, after)
