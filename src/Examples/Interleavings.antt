-- ===== src/Examples/Interleavings.antt =====
-- A run of the whole system from an empty history to a job that succeeded.
use queue_flow.Base.{
  Option, some, ◌≡◌, refl, true, none, [], ◌∷◌, ◌===◌, Text, codes, if◌then◌else◌,
}
use queue_flow.Keys.{pending}
use queue_flow.Proc.{done, ◌>>◌, final, Config, Task, Reach, Reach-alone, here, next, arrive}
use queue_flow.Types.{JobStatus, queued, succeeded, is_uuid, row_to_job}
use queue_flow.Store.Jobs.{find, update, returning}
use queue_flow.Store.World.{World}
use queue_flow.Store.Rows.{Rows}
use queue_flow.Worker.{
  commits, WorkerConfig, Execution, process_one, settle, set_claimed, set_succeeded, claimable,
  owns,
}
use queue_flow.Worker.Loop.{serve_next}
use queue_flow.System.{Starts, Outside, serve}
use queue_flow.System.Sound.{Reach-Rows}
use queue_flow.Examples.Memory.{memory}
use queue_flow.Examples.Worlds.{job_at, world_of}

abbrev pub first_id : Text
first_id = codes "0d5b9c3e-6a41-4f0e-9b1c-2f7d8a3e4c51"

abbrev waiting : World memory
waiting = record (world_of (record (job_at queued 0) { id = first_id })) {
  lists = λ key. if key === pending then first_id ∷ [] else [];
}

abbrev pub worker_one : WorkerConfig
worker_one = record {
  worker_id = codes "w1";
  fencing = true;
  retry = record { base_ms = 1000; max_ms = 60000 };
}

abbrev pub execution : Execution
execution = record { lease = codes "l1"; handle = λ job. none; commit = commits; random = 0 }

abbrev serving : Task (World memory)
serving = serve_next memory worker_one execution >> done tt

abbrev start : Config (World memory)
start = record { state = waiting; tasks = [] }

serving_runs :
    Reach
      (Starts memory)
      (Outside memory)
      start
      (record { state = final serving waiting; tasks = done tt ∷ [] })
serving_runs =
    Reach-alone (Starts memory) (Outside memory) start serving waiting
      (next here (arrive start serving (serve worker_one execution)))

Reach-Rows_example : Rows memory (final serving waiting)
Reach-Rows_example = Reach-Rows memory (tt, tt) refl serving_runs

abbrev status_in : World memory → Option JobStatus
status_in w = elim (find first_id w.db.jobs) [ none ↦ none | some r ↦ some r.status ]

-- That job is recorded as succeeded at the end.
serving_succeeds : status_in (final serving waiting) ≡ some succeeded
unfolding find serve_next process_one settle update returning is_uuid set_claimed set_succeeded
    claimable owns row_to_job ◌===◌
serving_succeeds = refl
