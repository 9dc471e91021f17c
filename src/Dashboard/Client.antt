-- ===== src/Dashboard/Client.antt =====
-- web/src/api: the client of the API. An answer of fetch is an argument. The pairs of
-- URLSearchParams reach the server as they are.
pub mod Query
use queue_flow.Base.{
  ℕ, Bool, true, false, not, ◌&&◌, ◌||◌, Option, none, some, List, [], ◌∷◌, ◌++◌, Text, codes,
  ◌===◌, leb, ◌==◌, if◌then◌else◌, is_nil, decimal,
}
use queue_flow.Json.{Value, undefined, null, str, obj, field, end, property}
use queue_flow.Types.{JobStatus, JobType, job_status_name, job_type_name}

-- What fetch comes to: it rejects, or there is a status, its text, and a body that may be no JSON.
pub data Fetched : Type 0 where
  rejected : Fetched
  answered : ℕ → Text → Option Value → Fetched

-- `api_error`: ApiError with its status and message. `broken`: any other error.
pub data Result : Type 0 where
  value : Value → Result
  api_error : ℕ → Value → Result
  broken : Result

pub is_success : ℕ → Bool
is_success status = leb 200 status && leb status 299

-- `body.error ?? res.statusText`, where a body that is null has no properties.
pub error_of : ℕ → Text → Value → Result
error_of status text null = broken
error_of status text body = elim (property body (codes "error")) [
  | undefined ↦ api_error status (str text)
  | null ↦ api_error status (str text)
  | message ↦ api_error status message
]

-- `res.json().catch(() => ({}))`
pub or_object : Option Value → Value
or_object none = obj end
or_object (some body) = body

pub json_of : Option Value → Result
json_of none = broken
json_of (some body) = value body

pub api_result : Fetched → Result
unfolding is_success error_of or_object json_of
api_result rejected = broken
api_result (answered status text body) =
    if is_success status then json_of body else error_of status text (or_object body)

-- GET /api/health: 503 is an answer, too.
pub read_health : Fetched → Result
unfolding json_of
read_health rejected = broken
read_health (answered status text body) =
    if (status == 200) || (status == 503) then json_of body else broken

pub with_status : Option JobStatus → List (Text × Text) → List (Text × Text)
with_status none params = params
with_status (some s) params = params ++ ((codes "status", job_status_name s) ∷ [])

pub with_cursor : Option Text → List (Text × Text) → List (Text × Text)
with_cursor none params = params
with_cursor (some c) params = if is_nil c then params else params ++ ((codes "cursor", c) ∷ [])

-- The parameters that listJobs sends.
pub list_jobs_params : Option JobStatus → Option Text → ℕ → List (Text × Text)
unfolding with_status with_cursor
list_jobs_params status cursor limit =
    with_cursor cursor (with_status status ((codes "limit", decimal limit) ∷ []))

-- The body and the header of createJob.
pub create_job_body : JobType → Value → Value
create_job_body type payload =
    obj (field (codes "type") (str (job_type_name type)) (field (codes "payload") payload end))

pub key_header : Option Text → List (Text × Text)
key_header none = []
key_header (some key) = if is_nil key then [] else (codes "Idempotency-Key", key) ∷ []
