-- ===== src/Api/Params/Limits.antt =====
-- src/api/params.ts: parseLimit, with Number(text) as a parameter. A double is an integer if it is a
-- whole multiple of 2^1074 units.
use queue_flow.Base.{
  ℕ, ◌%◌, ◌/◌, ◌^◌, ◌≤◌, ◌≡◌, Bool, false, not, Text, codes, ltb, ◌==◌, if◌then◌else◌, min, arith,
  is_nil, trim,
}
use queue_flow.Json.{Number, finite, Value, undefined, null, bool, num, str, arr, obj, is_finite}
use queue_flow.Api.Params.{Parsed, ok, bad}

unfoldable pub unit : ℕ
unit = 2 ^ 1074

-- The integer part of a number, if it is not negative.
unfoldable pub floor : Number → ℕ
floor (finite false units) = units / unit
floor _ = 0

-- Number.isInteger
unfoldable pub is_integer : Number → Bool
is_integer (finite negative units) = units % unit == 0
is_integer _ = false

-- From the first test of the number on; an integer below 1 has the floor 0 here.
unfoldable pub limit_of : ℕ → Bool → Number → Parsed ℕ
unfolding is_integer floor
limit_of max blank n =
    if blank
    then bad (codes "limit must be a number")
    else if not (is_finite n)
    then bad (codes "limit must be a number")
    else if not (is_integer n)
    then bad (codes "limit must be a whole number")
    else if ltb (floor n) 1
    then bad (codes "limit must be at least 1")
    else ok (min (floor n) max)

unfoldable pub parse_limit : (Text → Number) → ℕ → ℕ → Value → Parsed ℕ
unfolding limit_of
parse_limit number fallback max undefined = ok fallback
parse_limit number fallback max (str raw) = limit_of max (is_nil (trim raw)) (number raw)
parse_limit number fallback max _ = bad (codes "limit must be a single value")

limit_of-between :
    (max : ℕ) (blank : Bool) (number : Number) (n : ℕ)
    → 1 ≤ max
    → limit_of max blank number ≡ ok n
    → (1 ≤ n) × (n ≤ max)
unfolding limit_of
limit_of-between max blank number n pos e = ground arith

-- For a fallback from 1 to the maximum, and whatever the parameter is: a limit that parseLimit
-- accepts lies between 1 and the maximum.
pub parse_limit-between :
    (number : Text → Number) (fallback max : ℕ) (raw : Value) (n : ℕ)
    → 1 ≤ fallback
    → fallback ≤ max
    → parse_limit number fallback max raw ≡ ok n
    → (1 ≤ n) × (n ≤ max)
unfolding parse_limit
parse_limit-between number fallback max undefined n pos low e = ground arith
parse_limit-between number fallback max (str raw) n pos low e =
    limit_of-between max (is_nil (trim raw)) (number raw) n (omega arith) e
parse_limit-between number fallback max null n pos low e = cc
parse_limit-between number fallback max (bool b) n pos low e = cc
parse_limit-between number fallback max (num m) n pos low e = cc
parse_limit-between number fallback max (arr xs) n pos low e = cc
parse_limit-between number fallback max (obj fs) n pos low e = cc
