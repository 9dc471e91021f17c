-- ===== src/Worker.antt =====
-- src/worker/index.ts: the execution of one job, from the claim to the recorded outcome.
pub mod Fencing
pub mod Ghosts
pub mod Sound
pub mod Outcomes
pub mod Loop
pub mod Start
pub mod Drain
pub mod Slots
pub mod Handlers
use queue_flow.Base.{
  ℕ, ◌+◌, ◌≡◌, Bool, true, false, not, ◌&&◌, ◌||◌, Option, none, some, List, [], ◌∷◌, ◌++◌, Text,
  ◌===◌, leb, if◌then◌else◌,
}
use queue_flow.Proc.{Proc, done, step, ◌>>=◌, ◌>>◌, command, read, write}
use queue_flow.Types.{
  JobRow, JobRecord, JobStatus, queued, running, retrying, succeeded, failed, dead, row_to_job,
}
use queue_flow.Retry.{RetryConfig, next_delay_ms}
use queue_flow.Store.Jobs.{find, update, returning, Effect}
use queue_flow.Store.Redis.{Redis}
use queue_flow.Store.World.{World, select_job, update_job, zadd}

-- The constants of the process, and what one execution draws from outside.
pub record WorkerConfig : Type 0 where
  pub worker_id : Text
  pub fencing : Bool
  pub retry : RetryConfig

-- How the transaction of the `try` block ends; an error comes with its message. The reply of a
-- COMMIT that took effect may be lost, and the client then sees an error too.
pub data Commit : Type 0 where
  commits : Commit
  rolls_back reply_lost : Text → Commit

-- `lease` is what gen_random_uuid() returns, `handle` is the handler (a message if it throws),
-- `random` is Math.random().
pub record Execution : Type 0 where
  pub lease : Text
  pub handle : JobRecord → Option Text
  pub commit : Commit
  pub random : ℕ

-- How an execution ends; the log line of each.
pub data Outcome : Type 0 where
  no_row : Outcome
  not_claimable : JobStatus → Outcome
  recorded_success fenced_out buried fenced_failing : Outcome
  parked : ℕ → Outcome

-- `status IN ('queued', 'retrying')`
unfoldable pub claimable : JobRow → Bool
claimable r = elim r.status [ queued ↦ true | retrying ↦ true | _ ↦ false ]

unfoldable pub set_claimed : Text → ℕ → JobRow → JobRow
set_claimed lease now r = record r {
  status = running;
  started_at = some now;
  attempts = r.attempts + 1;
  lease_id = some lease;
}

abbrev pub lease_is : Text → Option Text → Bool
lease_is lease none = false
lease_is lease (some l) = l === lease

-- `$3::boolean IS FALSE OR lease_id = $2`
unfoldable pub owns : Bool → Text → JobRow → Bool
owns fencing lease r = not fencing || lease_is lease r.lease_id

unfoldable pub set_succeeded : ℕ → JobRow → JobRow
set_succeeded now r = record r { status = succeeded; completed_at = some now }

unfoldable pub set_dead : Text → ℕ → JobRow → JobRow
set_dead message now r = record r {
  status = dead;
  last_error = some message;
  completed_at = some now;
  next_run_at = none;
}

unfoldable pub set_retrying : Text → ℕ → ℕ → JobRow → JobRow
set_retrying message run_at now r = record r {
  status = retrying;
  last_error = some message;
  next_run_at = some run_at;
}

module _ (R : Redis) where
  -- BEGIN … COMMIT: the update and the effect row, or neither. The reply tells whether a row matched.
  unfoldable pub settle : WorkerConfig → Text → Text → World R → World R
  settle cfg lease id w =
      elim (returning id (owns cfg.fencing lease) (set_succeeded w.clock) w.db.jobs) [
        | none ↦ w
        | some r ↦ record w {
          db = record {
            jobs = update id (owns cfg.fencing lease) (set_succeeded w.clock) w.db.jobs;
            effects =
                record { job_id = id; worker_id = cfg.worker_id; ran_at = w.clock } ∷ w.db.effects;
          };
        }
      ]

  settled : WorkerConfig → Text → Text → World R → Bool
  settled cfg lease id w =
      elim (returning id (owns cfg.fencing lease) (set_succeeded w.clock) w.db.jobs) [
        | none ↦ false
        | some r ↦ true
      ]

  abbrev bury_outcome : Option JobRow → Outcome
  bury_outcome none = fenced_failing
  bury_outcome (some r) = buried

  bury : WorkerConfig → Execution → JobRecord → Text → Proc (World R) Outcome
  bury cfg ex job message = do
    row ← update_job R job.id (owns cfg.fencing ex.lease) (set_dead message)
    done (bury_outcome row)

  schedule : Text → ℕ → ℕ → Option JobRow → Proc (World R) Outcome
  schedule id run_at delay none = done fenced_failing
  schedule id run_at delay (some r) = zadd R run_at id >> done (parked delay)

  park : WorkerConfig → Execution → JobRecord → Text → Proc (World R) Outcome
  unfolding schedule
  park cfg ex job message = do
    let delay = next_delay_ms cfg.retry job.attempts ex.random
    now ← read (λ w. w.clock)
    row ← update_job R job.id (owns cfg.fencing ex.lease) (set_retrying message (now + delay))
    schedule job.id (now + delay) delay row

  -- The `catch` block.
  fail_job : WorkerConfig → Execution → JobRecord → Text → Proc (World R) Outcome
  unfolding bury park
  fail_job cfg ex job message =
      if leb job.max_attempts job.attempts then bury cfg ex job message else park cfg ex job message

  -- The transaction of the `try` block, once the handler has returned.
  record_success : WorkerConfig → Execution → JobRecord → Commit → Proc (World R) Outcome
  unfolding settle settled fail_job
  record_success cfg ex job commits = do
    kept ← command (settle cfg ex.lease job.id) (settled cfg ex.lease job.id)
    done (if kept then recorded_success else fenced_out)
  record_success cfg ex job (rolls_back message) = fail_job cfg ex job message
  record_success cfg ex job (reply_lost message) = do
    write (settle cfg ex.lease job.id)
    fail_job cfg ex job message

  pub after_handler : WorkerConfig → Execution → JobRecord → Option Text → Proc (World R) Outcome
  unfolding fail_job record_success
  after_handler cfg ex job (some message) = fail_job cfg ex job message
  after_handler cfg ex job none = record_success cfg ex job ex.commit

  after_claim : WorkerConfig → Execution → JobRecord → Option JobRow → Proc (World R) Outcome
  unfolding after_handler
  after_claim cfg ex job none = done (not_claimable job.status)
  after_claim cfg ex job (some r) =
      let claimed_job = record job { attempts = r.attempts } in
      after_handler cfg ex claimed_job (ex.handle claimed_job)

  after_select : WorkerConfig → Execution → Option JobRow → Proc (World R) Outcome
  unfolding after_claim row_to_job
  after_select cfg ex none = done no_row
  after_select cfg ex (some row) = do
    claim ← update_job R row.id claimable (set_claimed ex.lease)
    after_claim cfg ex (row_to_job row) claim

  unfoldable pub process_one : WorkerConfig → Execution → Text → Proc (World R) Outcome
  unfolding after_select
  process_one cfg ex job_id = do found ← select_job R job_id; after_select cfg ex found
