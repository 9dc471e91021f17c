-- ===== src/Retry.antt =====
-- src/shared/retry.ts: exponential backoff, capped, with added jitter. A random double is a number
-- of units of 2^-53, and the products are exact where the source rounds doubles.
use native.Mathlib.Nat.{mul-le-mul_right, pow-suc}
use native.Mathlib.Numerals.{add-one}
use queue_flow.Base.{ℕ, ◌+◌, ◌*◌, ◌/◌, ◌^◌, ◌≤◌, ◌<◌, ◌≡◌, min, arith}

pub record RetryConfig : Type 0 where
  pub base_ms : ℕ
  pub max_ms : ℕ

-- JITTER is 3/10, and Math.random() is `random / random_units`.
abbrev pub random_units : ℕ
random_units = 9007199254740992

pub floor_ms : RetryConfig → ℕ → ℕ
floor_ms c attempts = min (2 ^ attempts * c.base_ms) c.max_ms

-- Math.round is `floor (x + 1/2)`.
round_div : ℕ → ℕ → ℕ
round_div n d = (2 * n + d) / (2 * d)

unfoldable pub next_delay_ms : RetryConfig → ℕ → ℕ → ℕ
unfolding floor_ms round_div
next_delay_ms c attempts random =
    round_div (floor_ms c attempts * (10 * random_units) + random * (floor_ms c attempts * 3))
      (10 * random_units)

round_div_bounds :
    (base random : ℕ)
    → random * base ≤ random_units * base
    → (base ≤ round_div (base * (10 * random_units) + random * (base * 3)) (10 * random_units))
      × (10 * round_div (base * (10 * random_units) + random * (base * 3)) (10 * random_units)
          ≤ 13 * base + 5)
unfolding round_div
round_div_bounds base random h = omega arith

-- For every attempt count and every random number below 1: the delay is at least the smaller of
-- 2^attempts times the base and the maximum, and at most 1.3 times it, up to rounding to a
-- millisecond.
pub next_delay_ms_bounds :
    (c : RetryConfig) (attempts random : ℕ)
    → random < random_units
    → (min (2 ^ attempts * c.base_ms) c.max_ms ≤ next_delay_ms c attempts random)
      × (10 * next_delay_ms c attempts random ≤ 13 * min (2 ^ attempts * c.base_ms) c.max_ms + 5)
unfolding next_delay_ms floor_ms
next_delay_ms_bounds c attempts random h =
    let capped = min (2 ^ attempts * c.base_ms) c.max_ms in
    round_div_bounds capped random (mul-le-mul_right capped (omega arith))

double_power : (n k : ℕ) → 2 ^ (n + 1) * k ≡ 2 * (2 ^ n * k)
double_power n k = rw (add-one n, pow-suc 2 n) (omega arith)

-- Without the jitter, one more attempt doubles the delay, up to the cap.
pub floor_ms_doubles :
    (c : RetryConfig) (attempts : ℕ)
    → floor_ms c (attempts + 1) ≡ min (2 * floor_ms c attempts) c.max_ms
unfolding floor_ms
floor_ms_doubles c attempts = omega (arith, double_power attempts c.base_ms)
