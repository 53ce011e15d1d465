-- ===== src/Outbox/Claims/Retry.antt =====
-- The retry delay of `_retry_delay_seconds` in better_hermes_hindsight/outbox.py.
use native.Mathlib.Nat.{pow-suc}
use native.Mathlib.Decide.{dec_le}
use better_hermes_hindsight.Common.{
  ℕ, zero, suc, ◌-◌, ◌*◌, ◌^◌, ◌≤◌, ◌<◌, ◌≡◌, refl, min, ltb, arith, false, Bool-cases, inl, inr,
  ◌∙◌,
}
use better_hermes_hindsight.Outbox.Claims.{double_until, retry_delay_seconds}

double_until_bounds :
    (remaining maximum delay : ℕ)
    → delay ≤ maximum
    → (delay ≤ double_until remaining maximum delay)
      × (double_until remaining maximum delay ≤ maximum)
unfolding double_until
double_until_bounds zero maximum delay h = omega arith
double_until_bounds (suc remaining) maximum delay h =
    ground (arith, double_until_bounds remaining maximum (min (delay * 2) maximum))

double_until_stays : (remaining maximum : ℕ) → double_until remaining maximum maximum ≡ maximum
unfolding double_until
double_until_stays zero maximum = refl
double_until_stays (suc remaining) maximum = ground arith

two_pow_pos : (n : ℕ) → 0 < 2 ^ n
two_pow_pos zero = omega arith
two_pow_pos (suc n) = omega (arith, two_pow_pos n, pow-suc 2 n)

le_mul_of_le : (a b r : ℕ) → a ≤ b → 0 < r → a ≤ b * r
le_mul_of_le a b r h p = grind arith

le_of_not_ltb : (a b : ℕ) → ltb a b ≡ false → b ≤ a
le_of_not_ltb a b h = ground arith

-- To cap before a multiplication changes nothing under the same cap.
cap_step : (d m r : ℕ) → 0 < r → min (min (d * 2) m * r) m ≡ min (d * (r * 2)) m
cap_step d m r p = elim (dec_le (d * 2) m) [
  | yes small ↦ let e : min (d * 2) m ≡ d * 2 = omega arith in rw e (omega arith)
  | no large ↦
      let e : min (d * 2) m ≡ m = omega arith in
      rw e (omega (arith, le_mul_of_le m m r, le_mul_of_le m (d * 2) r))
]

-- A doubling that is capped as it goes is the power of two capped once.
double_until_lem :
    (remaining maximum delay : ℕ)
    → 0 < delay
    → delay ≤ maximum
    → double_until remaining maximum delay ≡ min (delay * 2 ^ remaining) maximum
unfolding double_until
double_until_lem zero maximum delay pos h = omega arith
double_until_lem (suc remaining) maximum delay pos h = elim (Bool-cases (ltb delay maximum)) [
  | inl more ↦
      rw (more, pow-suc)
        (double_until_lem remaining maximum (min (delay * 2) maximum) (ground arith) (omega arith)
          ∙ cap_step delay maximum (2 ^ remaining) (two_pow_pos remaining))
  | inr done ↦ rw done (
      omega (
        arith,
        le_of_not_ltb delay maximum done,
        le_mul_of_le maximum delay (2 ^ suc remaining),
        two_pow_pos (suc remaining),
      ))
]

-- The delay after attempt `n` is `initial * 2 ^ (n - 1)`, capped at the maximum, for an initial delay above
-- zero that the maximum is not below.
pub retry_delay_lem :
    (n initial maximum : ℕ)
    → 0 < initial
    → initial ≤ maximum
    → retry_delay_seconds n initial maximum ≡ min (initial * 2 ^ (n - 1)) maximum
unfolding retry_delay_seconds
retry_delay_lem n initial maximum pos h = ground (
  arith,
  double_until_lem (n - 1) maximum initial pos h,
  two_pow_pos (n - 1),
  le_mul_of_le maximum maximum (2 ^ (n - 1)),
)
