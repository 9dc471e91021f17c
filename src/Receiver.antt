-- ===== src/Receiver.antt =====
-- src/receiver/index.ts: the webhook receiver that simulates an external service. The body of a
-- delivery is only logged, and the log is left out. A reply carries the delay before it is sent. The
-- conversion Number(...) is a parameter.
pub mod Once
pub mod Flaky
use queue_flow.Base.{
  ℕ, ◌+◌, ◌*◌, ◌^◌, Bool, true, false, ◌&&◌, not, Option, none, some, List, [], ◌∷◌, Text, codes,
  ◌===◌, ltb, leb, if◌then◌else◌, length,
}
use queue_flow.Json.{Number, nan, infinite, finite, is_finite, is_at_most_zero, Value, str}

-- A map keeps the order in which its keys came.
abbrev pub Counts : Type 0
Counts = List (Text × ℕ)

pub record State : Type 0 where
  pub deliveries : Counts
  pub applied : List Text

-- `deliveries.get(jobId) ?? 0`
unfoldable pub count_of : Text → Counts → ℕ
count_of id [] = 0
count_of id ((k, n) ∷ m) = if k === id then n else count_of id m

-- `deliveries.set(jobId, count)`
pub set_count : Text → ℕ → Counts → Counts
set_count id count [] = (id, count) ∷ []
set_count id count ((k, n) ∷ m) =
    let rest = set_count id count m in if k === id then (k, count) ∷ m else (k, n) ∷ rest

-- `applied.has(jobId)`
pub is_applied : Text → List Text → Bool
is_applied id [] = false
is_applied id (k ∷ ks) = if k === id then true else is_applied id ks

-- `applied.add(jobId)`
pub add_applied : Text → List Text → List Text
add_applied id [] = id ∷ []
add_applied id (k ∷ ks) = let rest = add_applied id ks in if k === id then k ∷ ks else k ∷ rest

-- The header X-QueueFlow-Job-Id, and the parameter `delayMs` of the query.
pub record Request : Type 0 where
  pub job_id : Option Text
  pub delay_ms : Value

unfoldable pub job_of : Request → Text
job_of r = elim r.job_id [ some id ↦ id | none ↦ codes "unknown" ]

pub record_delivery : Request → State → State
unfolding job_of count_of set_count
record_delivery r s =
    let id = job_of r in
    record s { deliveries = set_count id (count_of id s.deliveries + 1) s.deliveries }

-- A whole number as a double.
unfoldable pub whole : ℕ → Number
whole n = finite false (n * 2 ^ 1074)

-- `count <= failures`
pub is_within : ℕ → Number → Bool
is_within count nan = false
is_within count (infinite negative) = not negative
is_within count (finite false units) = leb (count * 2 ^ 1074) units
is_within count (finite true units) = leb (count * 2 ^ 1074 + units) 0

-- `Math.min(raw, 60_000)`, for a finite number above zero
pub at_most_minute : Number → Number
unfolding whole
at_most_minute (finite false units) =
    if leb units (60000 * 2 ^ 1074) then finite false units else whole 60000
at_most_minute raw = raw

pub data Body : Type 0 where
  received : ℕ → Body  -- { ok: true, received }
  applied_once : Bool → ℕ → Body  -- { ok: true, duplicate, received }
  simulated_outage held try_again : Body
  recovered_after : Number → Body

pub record Reply : Type 0 where
  pub status : ℕ
  pub body : Body
  pub delay : Number

-- POST /hook, /hook/idempotent, /hook/down, /hook/slow and /hook/flaky/:failures
pub data Route : Type 0 where
  plain idempotent down slow : Route
  flaky : Text → Route

pub post_down : Request → State → State × Reply
unfolding record_delivery
post_down r s =
    (record_delivery r s, record { status = 500; body = simulated_outage; delay = whole 0 })

pub post_slow : Request → State → State × Reply
unfolding record_delivery
post_slow r s = (record_delivery r s, record { status = 200; body = held; delay = whole 60000 })

module _ (number : Value → Number) where
  pub delay_from : Request → Number
  delay_from r =
      let raw = number r.delay_ms in
      if is_finite raw && not (is_at_most_zero raw) then at_most_minute raw else whole 0

  pub post_plain : Request → State → State × Reply
  unfolding record_delivery
  post_plain r s =
      let s' = record_delivery r s in
      let count = count_of (job_of r) s'.deliveries in
      (s', record { status = 200; body = received count; delay = delay_from r })

  pub post_idempotent : Request → State → State × Reply
  unfolding record_delivery
  post_idempotent r s =
      let s' = record_delivery r s in
      let id = job_of r in
      let count = count_of id s'.deliveries in
      let delay = delay_from r in
      if is_applied id s'.applied
      then (s', record { status = 200; body = applied_once true count; delay = delay })
      else (
        record s' { applied = add_applied id s'.applied },
        record { status = 200; body = applied_once false count; delay = delay },
      )

  pub post_flaky : Text → Request → State → State × Reply
  unfolding record_delivery
  post_flaky param r s =
      let s' = record_delivery r s in
      let count = count_of (job_of r) s'.deliveries in
      let failures = number (str param) in
      if is_within count failures
      then (s', record { status = 503; body = try_again; delay = whole 0 })
      else (s', record { status = 200; body = recovered_after failures; delay = whole 0 })

  pub receive : Route → Request → State → State × Reply
  receive plain r s = post_plain r s
  receive idempotent r s = post_idempotent r s
  receive down r s = post_down r s
  receive slow r s = post_slow r s
  receive (flaky param) r s = post_flaky param r s

-- GET /deliveries. `byJob` is the map itself; an object lists keys that are whole numbers first.
pub record Summary : Type 0 where
  pub total : ℕ
  pub applied_jobs : ℕ
  pub duplicates : Counts
  pub by_job : Counts

pub sum_counts : Counts → ℕ
sum_counts [] = 0
sum_counts ((k, n) ∷ m) = n + sum_counts m

pub repeated : Counts → Counts
repeated [] = []
repeated ((k, n) ∷ m) = let rest = repeated m in if ltb 1 n then (k, n) ∷ rest else rest

pub get_deliveries : State → Summary
unfolding sum_counts repeated
get_deliveries s = record {
  total = sum_counts s.deliveries;
  applied_jobs = length s.applied;
  duplicates = repeated s.deliveries;
  by_job = s.deliveries;
}

-- DELETE /deliveries, and a new receiver
abbrev pub delete_deliveries : State → State
delete_deliveries s = record { deliveries = []; applied = [] }
