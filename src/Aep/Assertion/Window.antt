-- ===== src/Aep/Assertion/Window.antt =====
-- The 64-bit comparisons of times agree with those of unbounded integers.
use aep_go.Prelude.{arith, ℕ, ◌<◌, ◌^◌, ◌≡◌}
use aep_go.Prelude.Int64.{
  +ℤ_parts, -ℤ_parts, IsInt64, add64, add64_of_IsInt64, leb_ℤ, ltb_ℤ, max_int64, min_int64, pos,
  sub64, sub64_of_IsInt64, ℤ, ◌+ℤ◌, ◌-ℤ◌, ◌<ℤ◌, ◌≤ℤ◌,
}
use aep_go.Aep.Types.{max_assertion_lifetime}
use aep_go.Aep.Assertion.{issued_deadline, exceeds_assertion_lifetime, expiry_deadline}

pub int64_sum : (a : ℤ) (n : ℕ) → IsInt64 a → a +ℤ pos n ≤ℤ max_int64 → add64 a (pos n) ≡ a +ℤ pos n
int64_sum a n h le = add64_of_IsInt64 a (pos n) (omega (arith, +ℤ_parts), le)

pub int64_difference :
    (a : ℤ) (n : ℕ) → IsInt64 a → min_int64 ≤ℤ a -ℤ pos n → sub64 a (pos n) ≡ a -ℤ pos n
int64_difference a n h le = sub64_of_IsInt64 a (pos n) (le, omega (arith, -ℤ_parts))

-- For `int64` times the guard against overflow makes the test exact: a lifetime is too long exactly
-- when it is longer than 300 seconds as an unbounded integer.
pub exceeds_assertion_lifetime_exact :
    (issued_at expires_at : ℤ)
    → IsInt64 issued_at
    → IsInt64 expires_at
    → exceeds_assertion_lifetime issued_at expires_at
      ≡ ltb_ℤ (issued_at +ℤ pos max_assertion_lifetime) expires_at
unfolding exceeds_assertion_lifetime
exceeds_assertion_lifetime_exact issued_at expires_at hi he = ground (
  arith,
  sub64_of_IsInt64 max_int64 (pos max_assertion_lifetime),
  -ℤ_parts max_int64 (pos max_assertion_lifetime),
  int64_sum issued_at max_assertion_lifetime,
  +ℤ_parts issued_at (pos max_assertion_lifetime),
)

-- For a tolerance below 2^63 seconds, an `iat` is after the saturating deadline exactly when it is
-- after the unbounded sum of the clock and the tolerance.
pub issued_deadline_exact :
    (now issued_at : ℤ) (tolerance : ℕ)
    → IsInt64 now
    → IsInt64 issued_at
    → tolerance < 2 ^ 63
    → ltb_ℤ (issued_deadline now tolerance) issued_at ≡ ltb_ℤ (now +ℤ pos tolerance) issued_at
unfolding issued_deadline
issued_deadline_exact now issued_at tolerance hn hi ht = ground (
  arith,
  int64_difference max_int64 tolerance,
  -ℤ_parts max_int64 (pos tolerance),
  int64_sum now tolerance,
  +ℤ_parts now (pos tolerance),
)

-- For a tolerance below 2^63 seconds and an `exp` above the least `int64`, `exp` has passed the
-- saturating deadline exactly when it has passed the unbounded difference of clock and tolerance.
pub expiry_deadline_exact :
    (now expires_at : ℤ) (tolerance : ℕ)
    → IsInt64 now
    → IsInt64 expires_at
    → min_int64 <ℤ expires_at
    → tolerance < 2 ^ 63
    → leb_ℤ expires_at (expiry_deadline now tolerance) ≡ leb_ℤ expires_at (now -ℤ pos tolerance)
unfolding expiry_deadline
expiry_deadline_exact now expires_at tolerance hn he positive ht = ground (
  arith,
  int64_sum min_int64 tolerance,
  +ℤ_parts min_int64 (pos tolerance),
  int64_difference now tolerance,
  -ℤ_parts now (pos tolerance),
)
