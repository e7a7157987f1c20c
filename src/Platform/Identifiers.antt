-- ===== src/Platform/Identifiers.antt =====
-- platform/platform.go: the syntax of DIDs and of numbers in strings.
pub mod Canonical
use aep_go.Prelude.{
  Bool, Option, Text, [], all, bytes, drop, false, if◌then◌else◌, is_empty, leb, ltb, none, not,
  some, suc, true, zero, ℕ, ◌%◌, ◌&&◌, ◌*◌, ◌++◌, ◌+◌, ◌-◌, ◌/◌, ◌==◌, ◌^◌, ◌||◌, ◌∷◌,
}
use aep_go.Aep.Bytes.{is_lower, is_upper, is_digit, cut, has_prefix, contains_byte}

-- `isHex`
unfoldable pub is_hex : ℕ → Bool
is_hex c = is_digit c || leb b'a' c && leb c b'f' || leb b'A' c && leb c b'F'

-- `isDIDIdentifierCharacter`; a byte above 0x7f is no ASCII rune.
unfoldable pub is_did_identifier_character : ℕ → Bool
unfolding contains_byte
is_did_identifier_character c =
    is_lower c || is_upper c || is_digit c || contains_byte (bytes "._:-!$&'()*+,;=") c

-- The loop over the identifier: a percent sign takes two hexadecimal digits with it.
unfoldable pub is_did_identifier : Text → Bool
unfolding is_hex is_did_identifier_character
is_did_identifier [] = true
is_did_identifier (c ∷ []) = is_did_identifier_character c
is_did_identifier (c ∷ d ∷ []) = is_did_identifier_character c && is_did_identifier_character d
is_did_identifier (c ∷ d ∷ e ∷ rest) =
    let plain = is_did_identifier (d ∷ e ∷ rest) in
    let escaped = is_did_identifier rest in
    if is_did_identifier_character c then plain else c == b'%' && is_hex d && is_hex e && escaped

-- `isDID`; every byte of a rune above U+007F is above `z`.
unfoldable pub is_did : Text → Bool
unfolding has_prefix cut is_did_identifier
is_did value =
    if not (has_prefix value (bytes "did:"))
    then false
    else let (method, identifier) = cut (drop 4 value) b':' in
      elim identifier [
        | none ↦ false
        | some id ↦
            not (is_empty method || is_empty id)
            && all (λ c. is_lower c || is_digit c) method
            && is_did_identifier id
      ]

-- The number that a run of digits continues.
abbrev pub read_digits : ℕ → Text → ℕ
read_digits n [] = n
read_digits n (c ∷ digits) = read_digits (10 * n + (c - b'0')) digits

abbrev pub max_signed64 : ℕ
max_signed64 = 2 ^ 63 - 1

-- `strconv.ParseInt(value, 10, 64)` on digits: a number above the range is an error.
abbrev pub parse_int64 : Text → Option ℕ
parse_int64 digits =
    if leb (read_digits 0 digits) max_signed64 then some (read_digits 0 digits) else none

-- `canonicalPositiveInteger`, `none` for false
unfoldable pub canonical_positive_integer : Text → Option ℕ
canonical_positive_integer [] = none
canonical_positive_integer (c ∷ digits) =
    if ltb c b'1' || ltb b'9' c || not (all is_digit digits) then none else parse_int64 (c ∷ digits)

-- `strconv.Itoa` and `strconv.FormatInt` on a number that is not negative; a number has fewer
-- digits than its successor counts.
abbrev pub digits_of : (fuel n : ℕ) → Text
digits_of zero n = []
digits_of (suc fuel) n =
    let front = digits_of fuel (n / 10) in
    if ltb n 10 then (b'0' + n) ∷ [] else front ++ ((b'0' + n % 10) ∷ [])

unfoldable pub decimal : ℕ → Text
decimal n = digits_of (suc n) n
