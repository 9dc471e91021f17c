-- ===== src/System/Lifecycle.antt =====
-- A job from its request to its outcome: src/api/index.ts and src/worker/index.ts in a row.
use queue_flow.Base.{
  Bool, ◌∙◌, ◌≡◌, refl, ap, Option, none, some, true, [], ◌∷◌, Text, last?, drop_last,
}
use queue_flow.Json.{Value}
use queue_flow.Keys.{pending, processing}
use queue_flow.Proc.{result, final}
use queue_flow.Types.{JobType, JobRow, succeeded, is_job_type, is_uuid, row_to_job}
use queue_flow.Types.Validate.{Url, validate_payload}
use queue_flow.Store.Jobs.{find, find_key}
use queue_flow.Store.Redis.{Redis}
use queue_flow.Store.World.{World}
use queue_flow.Worker.{commits, WorkerConfig, Execution, recorded_success, claimable}
use queue_flow.Worker.Loop.{Turn, executed, serve_next}
use queue_flow.Worker.Loop.Serve.{serve_next-serves}
use queue_flow.Api.{create_job, new_row}
use queue_flow.Api.Outcomes.{create_job-accepts}

-- The row is as a first attempt that succeeds leaves it, the effect is recorded, and the queues are
-- as they were before the request: `w` is the world before it, `v` the one before the turn.
abbrev pub Ran :
    (R : Redis) → WorkerConfig → Execution → JobRow → World R → World R → Turn → World R → Type 0
Ran R cfg ex row w v o u =
    (o ≡ executed recorded_success)
    × (find row.id u.db.jobs
        ≡ some (record row {
          status = succeeded;
          started_at = some v.clock;
          attempts = 1;
          lease_id = some ex.lease;
          completed_at = some v.clock;
        }))
    × (u.db.effects
        ≡ record { job_id = row.id; worker_id = cfg.worker_id; ran_at = v.clock } ∷ v.db.effects)
    × (R.lrange u.lists pending ≡ [])
    × (R.lrange u.lists (processing cfg.worker_id) ≡ R.lrange v.lists (processing cfg.worker_id))
    × (u.delayed ≡ w.delayed)

module _ (R : Redis) (allow_private : Bool) (parse_url : Text → Option Url) (w : World R)
    (id : Text) (key : Option Text) (type payload : Value) (t : JobType)
    (known : is_job_type type ≡ some t)
    (valid : validate_payload allow_private parse_url t payload ≡ none)
    (new_key : find_key key w.db.jobs ≡ none) (new_id : find id w.db.jobs ≡ none)
    (cfg : WorkerConfig) (ex : Execution) where
  abbrev created : World R
  created = final (create_job R allow_private parse_url id key type payload) w

  abbrev served : World R
  served = final (serve_next R cfg ex) created

  abbrev pub row : JobRow
  row = new_row id t payload key w.clock

  -- Uninterrupted, for a known job type, an acceptable payload, a key that no row has, a fresh
  -- id that is a uuid and an empty pending list, with a handler that returns and a transaction
  -- that commits: after POST /jobs, the next turn of a worker's loop runs the job; its row is
  -- succeeded after one attempt, one effect with the worker's id is added, and the pending
  -- list, the worker's own list and the delayed set are as they were.
  pub create_job-serve_next :
      R.lrange w.lists pending ≡ []
      → is_uuid id ≡ true
      → ex.handle (row_to_job (record row { attempts = 1 })) ≡ none
      → ex.commit ≡ commits
      → Ran R cfg ex row w created (result (serve_next R cfg ex) created) served
  unfolding new_row claimable
  create_job-serve_next empty u h e =
      let (a, found, grown, waiting) =
        create_job-accepts R allow_private parse_url w id key type payload t known valid new_key
          new_id in
      let one : R.lrange created.lists pending ≡ id ∷ [] = rw empty at grown in
      let (ran, ended, effects, left, own, still) =
        serve_next-serves R cfg ex created row found refl h e u (ap last? one) in
      (ran, ended, effects, left ∙ ap drop_last one, own, still ∙ waiting)
