-- ===== src/Dashboard/Client/Query.antt =====
-- web/src/api/jobs.ts with src/api/params.ts: what the server reads from the query of listJobs.
use native.Mathlib.Nat.{mul-div_cancel, mul-mod_left}
use queue_flow.Base.{
  ℕ, ◌*◌, ◌≤◌, ◌<◌, ◌≡◌, ◌∙◌, refl, ap, false, Option, none, some, List, [], ◌∷◌, Text, codes,
  ◌===◌, if◌then◌else◌, is_nil, trim, trim-solid, is_solid, is_space, decimal, all-decimal,
  decimal-nil, arith,
}
use queue_flow.Json.{Value, undefined, str, Number, finite, is_finite}
use queue_flow.Types.{JobStatus, job_status_name}
use queue_flow.Api.Params.{ok, parse_status, parse_status_iff}
use queue_flow.Api.Params.Limits.{unit, floor, is_integer, limit_of, parse_limit}
use queue_flow.Dashboard.Client.{with_status, with_cursor, list_jobs_params}

-- `req.query[key]` for a key that comes once.
pub query_of : Text → List (Text × Text) → Value
query_of key [] = undefined
query_of key ((k, v) ∷ ps) = if k === key then str v else query_of key ps

-- A whole number as a double.
abbrev pub double_of : ℕ → Number
double_of n = finite false (n * unit)

pub cursor_query : Option Text → Value
cursor_query none = undefined
cursor_query (some c) = if is_nil c then undefined else str c

decimal-trim : (n : ℕ) → is_nil (trim (decimal n)) ≡ false
unfolding is_space
decimal-trim n =
    ap is_nil (trim-solid (decimal n) (all-decimal is_solid (λ d h. ground (arith, h)) n))
    ∙ decimal-nil n

query_of-limit :
    (status : Option JobStatus) (cursor : Option Text) (limit : ℕ)
    → query_of (codes "limit") (list_jobs_params status cursor limit) ≡ str (decimal limit)
unfolding query_of list_jobs_params with_status with_cursor ◌===◌
query_of-limit none none limit = refl
query_of-limit none (some []) limit = refl
query_of-limit none (some (x ∷ c)) limit = refl
query_of-limit (some s) none limit = refl
query_of-limit (some s) (some []) limit = refl
query_of-limit (some s) (some (x ∷ c)) limit = refl

status_query : Option JobStatus → Value
status_query none = undefined
status_query (some s) = str (job_status_name s)

query_of-status :
    (status : Option JobStatus) (cursor : Option Text) (limit : ℕ)
    → query_of (codes "status") (list_jobs_params status cursor limit) ≡ status_query status
unfolding query_of list_jobs_params with_status with_cursor status_query ◌===◌
query_of-status none none limit = refl
query_of-status none (some []) limit = refl
query_of-status none (some (x ∷ c)) limit = refl
query_of-status (some s) none limit = refl
query_of-status (some s) (some []) limit = refl
query_of-status (some s) (some (x ∷ c)) limit = refl

query_of-cursor :
    (status : Option JobStatus) (cursor : Option Text) (limit : ℕ)
    → query_of (codes "cursor") (list_jobs_params status cursor limit) ≡ cursor_query cursor
unfolding query_of list_jobs_params with_status with_cursor cursor_query ◌===◌
query_of-cursor none none limit = refl
query_of-cursor none (some []) limit = refl
query_of-cursor none (some (x ∷ c)) limit = refl
query_of-cursor (some s) none limit = refl
query_of-cursor (some s) (some []) limit = refl
query_of-cursor (some s) (some (x ∷ c)) limit = refl

parse_status-query : (status : Option JobStatus) → parse_status (status_query status) ≡ ok status
unfolding status_query parse_status
parse_status-query none = refl
parse_status-query (some s) = (parse_status_iff (job_status_name s) s).1 refl

unit-positive : 0 < unit
unfolding unit
unit-positive = omega arith

limit_of-double : (n : ℕ) → 1 ≤ n → n ≤ 100 → limit_of 100 false (double_of n) ≡ ok n
unfolding limit_of is_integer floor is_finite
limit_of-double n low high = rw (mul-div_cancel n unit-positive, mul-mod_left n unit) (ground arith)

parse_limit-decimal :
    (number : Text → Number) (n : ℕ)
    → number (decimal n) ≡ double_of n
    → 1 ≤ n
    → n ≤ 100
    → parse_limit number 20 100 (str (decimal n)) ≡ ok n
unfolding parse_limit
parse_limit-decimal number n e low high = rw (decimal-trim n, e) (limit_of-double n low high)

-- For every status filter or none, every cursor or none and a limit from 1 to 100, where
-- Number() reads the digits of the limit: from the query that listJobs sends, parseLimit reads
-- that limit, parseStatus that status, and the server gets that cursor, or none where it is
-- empty.
pub list_jobs_params-understood :
    (number : Text → Number) (status : Option JobStatus) (cursor : Option Text) (limit : ℕ)
    → number (decimal limit) ≡ double_of limit
    → 1 ≤ limit
    → limit ≤ 100
    → (parse_limit number 20 100 (query_of (codes "limit") (list_jobs_params status cursor limit))
        ≡ ok limit)
      × (parse_status (query_of (codes "status") (list_jobs_params status cursor limit))
          ≡ ok status)
      × (query_of (codes "cursor") (list_jobs_params status cursor limit) ≡ cursor_query cursor)
list_jobs_params-understood number status cursor limit e low high = (
  ap (parse_limit number 20 100) (query_of-limit status cursor limit)
      ∙ parse_limit-decimal number limit e low high,
  ap parse_status (query_of-status status cursor limit) ∙ parse_status-query status,
  query_of-cursor status cursor limit,
)
