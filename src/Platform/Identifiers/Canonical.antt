-- ===== src/Platform/Identifiers/Canonical.antt =====
-- Numbers in strings have one spelling.
use aep_go.Prelude.{
  Bool, Bool-cases, Text, [], all, ap, append-nil, append_assoc, arith, false, inl, inr, leb, ltb,
  refl, some, subst, suc, sym, true, zero, ℕ, ◌%◌, ◌&&◌, ◌*◌, ◌++◌, ◌+◌, ◌-◌, ◌/◌, ◌<◌, ◌↔◌, ◌∙◌,
  ◌∷◌, ◌≡◌, ◌≤◌,
}
use aep_go.Aep.Bytes.{is_digit}
use aep_go.Platform.Identifiers.{
  canonical_positive_integer, decimal, read_digits, max_signed64, digits_of,
}

digits_of_fuel : (k j n : ℕ) → n < k → n < j → digits_of k n ≡ digits_of j n
digits_of_fuel zero j n h g = ground arith
digits_of_fuel (suc k) zero n h g = ground arith
digits_of_fuel (suc k) (suc j) n h g = ground (arith, digits_of_fuel k j (n / 10))

decimal_digit : (n : ℕ) → n < 10 → decimal n ≡ (b'0' + n) ∷ []
unfolding decimal
decimal_digit n h = ground arith

decimal_append : (n d : ℕ) → 1 ≤ n → d < 10 → decimal (10 * n + d) ≡ decimal n ++ ((b'0' + d) ∷ [])
unfolding decimal
decimal_append n d h g =
    let front : (10 * n + d) / 10 ≡ n = omega arith in
    let last : (10 * n + d) % 10 ≡ d = omega arith in
    ground (arith, front, last, digits_of_fuel (10 * n + d) (suc n) n (omega arith) (omega arith))

read_append : (n : ℕ) (s t : Text) → read_digits n (s ++ t) ≡ read_digits (read_digits n s) t
read_append n [] t = refl
read_append n (c ∷ s) t = read_append (10 * n + (c - b'0')) s t

all_append :
    (s t : Text) → all is_digit s ≡ true → all is_digit t ≡ true → all is_digit (s ++ t) ≡ true
all_append [] t h g = g
all_append (c ∷ s) t h g = ground (arith, all_append s t)

-- The first digit of a number is not zero.
abbrev starts_nonzero : Text → Bool
starts_nonzero [] = false
starts_nonzero (c ∷ s) = leb b'1' c && leb c b'9'

starts_append : (s t : Text) → starts_nonzero s ≡ true → starts_nonzero (s ++ t) ≡ true
starts_append [] t h = ground arith
starts_append (c ∷ s) t h = h

record Spells (s : Text) (n : ℕ) : Type 0 where
  value : read_digits 0 s ≡ n
  digits : all is_digit s ≡ true
  nonzero : starts_nonzero s ≡ true

one_digit-Spells : (n : ℕ) → 1 ≤ n → n < 10 → Spells ((b'0' + n) ∷ []) n
one_digit-Spells n h g = record {
  value = ground arith;
  digits = ground arith;
  nonzero = ground arith;
}

append-Spells :
    (s : Text) (n d : ℕ) → d < 10 → Spells s n → Spells (s ++ ((b'0' + d) ∷ [])) (10 * n + d)
append-Spells s n d g h = record {
  value = read_append 0 s ((b'0' + d) ∷ []) ∙ ground (arith, h.value);
  digits = all_append s ((b'0' + d) ∷ []) h.digits (ground arith);
  nonzero = starts_append s ((b'0' + d) ∷ []) h.nonzero;
}

digits_of-Spells : (k n : ℕ) → n < k → 1 ≤ n → Spells (digits_of k n) n
digits_of-Spells zero n h g = absurd (omega arith)
digits_of-Spells (suc k) n h g = elim (Bool-cases (ltb n 10)) [
  | inl small ↦ subst (λ s. Spells s n) (ground arith) (one_digit-Spells n g (ground arith))
  | inr large ↦
      let whole : 10 * (n / 10) + n % 10 ≡ n = omega arith in
      subst (λ m. Spells (digits_of (suc k) n) m) whole
        (subst (λ s. Spells s (10 * (n / 10) + n % 10)) (ground arith)
          (append-Spells (digits_of k (n / 10)) (n / 10) (n % 10) (omega arith)
            (digits_of-Spells k (n / 10) (ground arith) (ground arith))))
]

-- A text that starts as a number and goes on with digits is what its value is written as.
decimal_read :
    (n : ℕ) (t : Text) → 1 ≤ n → all is_digit t ≡ true → decimal (read_digits n t) ≡ decimal n ++ t
decimal_read n [] h g = sym (append-nil (decimal n))
decimal_read n (c ∷ t) h g =
    let d : b'0' + (c - b'0') ≡ c = ground arith in
    decimal_read (10 * n + (c - b'0')) t (omega arith) (ground arith)
    ∙ (ap (λ s. s ++ t) (decimal_append n (c - b'0') h (ground arith))
        ∙ (append_assoc (decimal n) ((b'0' + (c - b'0')) ∷ []) t
            ∙ ap (λ b. decimal n ++ (b ∷ t)) d))

canonical-Spells :
    (t : Text) (n : ℕ) → Spells t n → n ≤ max_signed64 → canonical_positive_integer t ≡ some n
unfolding canonical_positive_integer
canonical-Spells [] n h g = ground (arith, h.nonzero)
canonical-Spells (c ∷ t) n h g = ground (arith, h.nonzero, h.digits, h.value)

read_ge : (m : ℕ) (t : Text) (n : ℕ) → 1 ≤ m → read_digits m t ≡ n → 1 ≤ n
read_ge m [] n h e = ground arith
read_ge m (c ∷ t) n h e = read_ge (10 * m + (c - b'0')) t n (omega arith) e

canonical-decimal :
    (t : Text) (n : ℕ)
    → canonical_positive_integer t ≡ some n
    → (1 ≤ n) × (n ≤ max_signed64) × (t ≡ decimal n)
unfolding canonical_positive_integer
canonical-decimal [] n h = ground arith
canonical-decimal (c ∷ t) n h =
    let d = c - b'0' in
    let first : b'0' + d ≡ c = ground arith in
    let value : read_digits d t ≡ n = ground arith in
    let written : decimal n ≡ c ∷ t =
      ap decimal (sym value)
      ∙ (decimal_read d t (ground arith) (ground arith)
          ∙ (ap (λ s. s ++ t) (decimal_digit d (ground arith)) ∙ ap (λ b. b ∷ t) first)) in
    (read_ge d t n (ground arith) value, ground arith, sym written)

-- A text is read as the number n exactly when n is between 1 and the greatest int64 and the text
-- is the decimal form of n: there is no second spelling, with a sign or leading zeros.
pub canonical_positive_integer_iff :
    (t : Text) (n : ℕ)
    → (canonical_positive_integer t ≡ some n) ↔ ((1 ≤ n) × (n ≤ max_signed64) × (t ≡ decimal n))
unfolding decimal
canonical_positive_integer_iff t n = (
  canonical-decimal t n,
  λ h.
      subst (λ s. canonical_positive_integer s ≡ some n) (sym h.2)
        (canonical-Spells (decimal n) n (digits_of-Spells (suc n) n (omega arith) h.0) h.1),
)
