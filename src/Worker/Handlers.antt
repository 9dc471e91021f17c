-- ===== src/Worker/Handlers.antt =====
-- src/worker/handlers.ts: what a handler does with a job, as the message of the error that it throws.
-- `fetch`, String(value) on a value that is no string, and the time that passes are arguments.
pub mod Webhook
use queue_flow.Base.{
  ℕ, Bool, true, false, ◌&&◌, Option, none, some, List, [], ◌∷◌, ◌++◌, Text, codes, leb,
  if◌then◌else◌, take, decimal,
}
use queue_flow.Json.{Value, undefined, null, str, obj, end, property}
use queue_flow.Types.{
  JobType, sleep, always_fail, deliver_webhook, JobRecord, job_types, find_job_type,
}

-- What a POST comes to. `failed`: fetch rejects, by its timeout or otherwise, with a reason.
-- `responded`: the status, and the body where it could be read.
pub data Answer : Type 0 where
  failed : Bool → Text → Answer
  responded : ℕ → Option Text → Answer

-- `timeoutMs = 10_000`
pub data Timeout : Type 0 where
  ten_seconds : Timeout
  given : Value → Timeout

pub record Outside : Type 0 where
  pub fetch : Value → Text → ℕ → Value → Timeout → Answer  -- url, job id, attempt, body, timeout
  pub show_other : Value → Text
  pub elapsed_ms : ℕ
  pub type_error : Text  -- the message where the table has no such handler

timeout_of : Value → Timeout
timeout_of undefined = ten_seconds
timeout_of v = given v

-- `v ?? d`
abbrev pub or_else : Value → Value → Value
or_else undefined d = d
or_else null d = d
or_else v d = v

pub is_ok : ℕ → Bool
is_ok status = leb 200 status && leb status 299

abbrev body_text : Option Text → Text
body_text none = []
body_text (some t) = t

module _ (out : Outside) where
  pub show : Value → Text
  show (str t) = t
  show v = out.show_other v

  kind_of : Bool → Text
  kind_of true = codes "timed out"
  kind_of false = codes "unreachable"

  pub outcome_of : Text → Answer → Option Text
  unfolding kind_of is_ok
  outcome_of url (failed timed_out reason) = some (
      url
      ++ (codes " "
          ++ (kind_of timed_out
              ++ (codes " after " ++ (decimal out.elapsed_ms ++ (codes "ms: " ++ reason))))))
  outcome_of url (responded status body) =
      if is_ok status
      then none
      else some (
          url
          ++ (codes " responded "
              ++ (decimal status
                  ++ (codes " after "
                      ++ (decimal out.elapsed_ms ++ (codes "ms: " ++ take 200 (body_text body)))))))

  pub post : JobRecord → Answer
  unfolding timeout_of
  post job =
      out.fetch (property job.payload (codes "url")) job.id job.attempts
        (or_else (property job.payload (codes "body")) (obj end))
        (timeout_of (property job.payload (codes "timeoutMs")))

  pub deliver : JobRecord → Option Text
  unfolding outcome_of post show
  deliver job = outcome_of (show (property job.payload (codes "url"))) (post job)

  pub fail_always : JobRecord → Option Text
  unfolding show
  fail_always job = some (
      show (
        or_else (property job.payload (codes "message"))
          (str (codes "always_fail: this job type always throws"))))

  pub run_type : Option JobType → JobRecord → Option Text
  unfolding deliver fail_always
  run_type none job = some out.type_error
  run_type (some sleep) job = none
  run_type (some always_fail) job = fail_always job
  run_type (some deliver_webhook) job = deliver job

  -- `handlers[job.type](job, log)`
  unfoldable pub run_handler : JobRecord → Option Text
  unfolding run_type find_job_type
  run_handler job = run_type (find_job_type job_types job.type) job
