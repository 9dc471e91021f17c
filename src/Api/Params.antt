-- ===== src/Api/Params.antt =====
-- src/api/params.ts: parseStatus, and the error of invalid input.
pub mod Limits
pub mod Cursors
use queue_flow.Base.{
  ◌≡◌, ◌↔◌, refl, Option, none, some, List, [], ◌∷◌, ◌++◌, Text, codes, ◌===◌, ===_iff,
  if◌then◌else◌, arith,
}
use queue_flow.Json.{Value, undefined, str}
use queue_flow.Types.{
  JobStatus, queued, running, retrying, succeeded, failed, dead, job_statuses, job_status_name,
}

-- `bad`: BadRequest with its message.
pub data Parsed (A : Type 0) : Type 0 where
  ok : A → Parsed A
  bad : Text → Parsed A

find_status : List JobStatus → Text → Option JobStatus
find_status [] raw = none
find_status (s ∷ ss) raw =
    let rest = find_status ss raw in if job_status_name s === raw then some s else rest

-- `JOB_STATUSES.join(", ")`
join_names : List JobStatus → Text
join_names [] = []
join_names (s ∷ []) = job_status_name s
join_names (s ∷ t ∷ ss) = job_status_name s ++ (codes ", " ++ join_names (t ∷ ss))

unknown_status : Text → Text
unfolding join_names
unknown_status raw =
    codes "unknown status '" ++ (raw ++ (codes "' — expected one of " ++ join_names job_statuses))

of_status : Text → Option JobStatus → Parsed (Option JobStatus)
unfolding unknown_status
of_status raw none = bad (unknown_status raw)
of_status raw (some s) = ok (some s)

unfoldable pub parse_status : Value → Parsed (Option JobStatus)
unfolding find_status of_status
parse_status undefined = ok none
parse_status (str raw) = of_status raw (find_status job_statuses raw)
parse_status _ = bad (codes "status must be a single value")

find_status-name : (s : JobStatus) → find_status job_statuses (job_status_name s) ≡ some s
unfolding find_status ◌===◌
find_status-name queued = refl
find_status-name running = refl
find_status-name retrying = refl
find_status-name succeeded = refl
find_status-name failed = refl
find_status-name dead = refl

found_status :
    (ss : List JobStatus) (raw : Text) (s : JobStatus)
    → find_status ss raw ≡ some s
    → raw ≡ job_status_name s
unfolding find_status
found_status [] raw s e = cc
found_status (t ∷ ss) raw s e =
    ground (arith, ===_iff (job_status_name t) raw, found_status ss raw s)

parsed_status :
    (raw : Text) (s : JobStatus) (o : Option JobStatus) → of_status raw o ≡ ok (some s) → o ≡ some s
unfolding of_status
parsed_status raw s none e = cc
parsed_status raw s (some t) e = cc

-- A status filter given as a string is accepted as a status exactly when the string is the name
-- of that status, for each of the six.
pub parse_status_iff :
    (raw : Text) (s : JobStatus)
    → (parse_status (str raw) ≡ ok (some s)) ↔ (raw ≡ job_status_name s)
unfolding parse_status of_status
parse_status_iff raw s = (
  λ e. found_status job_statuses raw s (parsed_status raw s (find_status job_statuses raw) e),
  λ e. rw (e, find_status-name s) refl,
)
