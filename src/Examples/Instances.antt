-- ===== src/Examples/Instances.antt =====
-- The results on executions and on the drain at concrete jobs and workers.
use queue_flow.Base.{
  ℕ, ◌≡◌, refl, true, Option, none, some, ◌===◌, [], ◌∷◌, Text, codes, ltb, if◌then◌else◌,
}
use queue_flow.Proc.{Always, AlwaysFrom, result, final}
use queue_flow.Types.{JobRow, queued, retrying, succeeded, dead}
use queue_flow.Store.Jobs.{find}
use queue_flow.Store.World.{World}
use queue_flow.Worker.{
  commits, WorkerConfig, Execution, process_one, claimable, recorded_success, parked, buried,
}
use queue_flow.Worker.Fencing.{Fenced, process_one-Fenced}
use queue_flow.Worker.Outcomes.{process_one-succeeds}
use queue_flow.Worker.Outcomes.Failures.{process_one-parks, process_one-buries}
use queue_flow.Retry.{next_delay_ms}
use queue_flow.Worker.Drain.{LetsGo, drain, drain-LetsGo}
use queue_flow.Examples.Memory.{memory}
use queue_flow.Examples.Worlds.{job_at, world_of, claimed}

abbrev fenced_worker : WorkerConfig
fenced_worker = record {
  worker_id = codes "w1";
  fencing = true;
  retry = record { base_ms = 1000; max_ms = 60000 };
}

abbrev run_with : Option Text → Execution
run_with reply = record { lease = codes "l1"; handle = λ job. reply; commit = commits; random = 0 }

abbrev ended : Option Text → JobRow → World memory
ended reply r = final (process_one memory fenced_worker (run_with reply) (codes "j1")) (world_of r)

process_one-succeeds_example :
    (result
        (process_one memory fenced_worker (run_with none) (codes "j1"))
        (world_of (job_at queued 0))
      ≡ recorded_success)
    × (find (codes "j1") (ended none (job_at queued 0)).db.jobs
        ≡ some (record claimed { status = succeeded; completed_at = some 1000 }))
    × ((ended none (job_at queued 0)).db.effects
        ≡ record { job_id = codes "j1"; worker_id = codes "w1"; ran_at = 1000 } ∷ [])
    × ((ended none (job_at queued 0)).lists ≡ (world_of (job_at queued 0)).lists)
    × ((ended none (job_at queued 0)).delayed ≡ [])
unfolding find claimable ◌===◌
process_one-succeeds_example =
    process_one-succeeds memory fenced_worker (run_with none) (world_of (job_at queued 0))
      (job_at queued 0) refl refl refl refl

process_one-parks_example :
    (result
        (process_one memory fenced_worker (run_with (some (codes "no"))) (codes "j1"))
        (world_of (job_at queued 0))
      ≡ parked 2000)
    × (find (codes "j1") (ended (some (codes "no")) (job_at queued 0)).db.jobs
        ≡ some (record claimed {
          status = retrying;
          last_error = some (codes "no");
          next_run_at = some 3000;
        }))
    × ((ended (some (codes "no")) (job_at queued 0)).db.effects ≡ [])
    × ((ended (some (codes "no")) (job_at queued 0)).delayed ≡ (codes "j1", 3000) ∷ [])
unfolding find claimable ◌===◌ next_delay_ms
process_one-parks_example =
    process_one-parks memory fenced_worker (run_with (some (codes "no")))
      (world_of (job_at queued 0)) (job_at queued 0) refl (codes "no") refl refl refl

process_one-buries_example :
    (result
        (process_one memory fenced_worker (run_with (some (codes "no"))) (codes "j1"))
        (world_of (job_at retrying 4))
      ≡ buried)
    × (find (codes "j1") (ended (some (codes "no")) (job_at retrying 4)).db.jobs
        ≡ some (record claimed {
          attempts = 5;
          status = dead;
          last_error = some (codes "no");
          completed_at = some 1000;
          next_run_at = none;
        }))
    × ((ended (some (codes "no")) (job_at retrying 4)).db.effects ≡ [])
    × ((ended (some (codes "no")) (job_at retrying 4)).delayed ≡ [])
unfolding find claimable ◌===◌
process_one-buries_example =
    process_one-buries memory fenced_worker (run_with (some (codes "no")))
      (world_of (job_at retrying 4)) (job_at retrying 4) refl (codes "no") refl refl refl

process_one-Fenced_example :
    Always
      (Fenced memory (codes "l1") (codes "j1"))
      (process_one memory fenced_worker (run_with none) (codes "j1"))
process_one-Fenced_example =
    process_one-Fenced memory fenced_worker (run_with none) refl (codes "j1")

abbrev one_then_none : ℕ → ℕ
one_then_none n = if ltb n 2 then 1 else 0

drain-LetsGo_example :
    AlwaysFrom
      (LetsGo memory one_then_none fenced_worker)
      0
      (drain memory one_then_none 5 25000 fenced_worker)
drain-LetsGo_example = drain-LetsGo memory one_then_none fenced_worker 5 25000
