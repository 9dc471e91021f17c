-- ===== src/Json.antt =====
-- Values of the dynamic language: what `JSON.parse` and Postgres' JSONB hand to the code.
use queue_flow.Base.{ℕ, Bool, true, false, Text, ◌===◌, ltb, if◌then◌else◌}

-- An IEEE double: a finite one is an integral multiple of 2^-1074.
pub data Number : Type 0 where
  nan : Number
  infinite : Bool → Number
  finite : Bool → ℕ → Number

unfoldable pub is_finite : Number → Bool
is_finite nan = false
is_finite (infinite negative) = false
is_finite (finite negative units) = true

-- `n < 0`
unfoldable pub is_negative : Number → Bool
is_negative nan = false
is_negative (infinite negative) = negative
is_negative (finite true units) = ltb 0 units
is_negative (finite false units) = false

-- `n <= 0`
unfoldable pub is_at_most_zero : Number → Bool
is_at_most_zero nan = false
is_at_most_zero (infinite negative) = negative
is_at_most_zero (finite true units) = true
is_at_most_zero (finite false units) = ltb units 1

mutual
  pub data Value : Type 0 where
    undefined null : Value
    bool : Bool → Value
    num : Number → Value
    str : Text → Value
    arr : Items → Value
    obj : Fields → Value

  pub data Items : Type 0 where
    nil : Items
    cons : Value → Items → Items

  pub data Fields : Type 0 where
    end : Fields
    field : Text → Value → Fields → Fields

unfoldable pub get_field : Text → Fields → Value
get_field k end = undefined
get_field k (field j v fs) = if j === k then v else get_field k fs

-- `v.k` for a plain object; an array has none of the property names that the code reads.
unfoldable pub property : Value → Text → Value
unfolding get_field ◌===◌
property (obj fs) k = get_field k fs
property (arr xs) k = undefined
property _ k = undefined
