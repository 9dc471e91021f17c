-- ===== src/Examples/Lifecycles.antt =====
-- The start of a worker, a promotion, and a job from its request to its outcome, at concrete worlds.
use queue_flow.Base.{true, ◌≡◌, refl, none, some, ◌===◌, [], ◌∷◌, ◌<◌, arith, codes}
use queue_flow.Json.{str}
use queue_flow.Keys.{processing}
use queue_flow.Proc.{result, final}
use queue_flow.Types.{running, retrying, always_fail, is_uuid, is_job_type}
use queue_flow.Types.Validate.{validate_payload}
use queue_flow.Store.Jobs.{find, find_key}
use queue_flow.Store.Redis.{contains}
use queue_flow.Store.World.{World}
use queue_flow.Worker.Loop.{serve_next}
use queue_flow.Worker.Start.{start_up}
use queue_flow.Worker.Start.Ready.{Ready, start_up-Ready}
use queue_flow.Scheduler.{promote_due}
use queue_flow.Scheduler.Promotes.{Promoted, IsDistinct, promote_due-Promoted}
use queue_flow.Api.{create_job, new_row}
use queue_flow.System.Lifecycle.{Ran, create_job-serve_next}
use queue_flow.Examples.Memory.{put, memory}
use queue_flow.Examples.Worlds.{job_at, world_of, parse_any, webhook}
use queue_flow.Examples.Interleavings.{first_id, worker_one, execution}

-- A worker that stopped with a job and an entry that is no uuid on its list.
abbrev stopped_worker : World memory
stopped_worker = record (world_of (record (job_at running 1) { id = first_id })) {
  lists = put (λ key. []) (processing (codes "w1")) (codes "x" ∷ first_id ∷ []);
}

abbrev started : World memory
started = final (start_up memory 5 30 (codes "42") worker_one) stopped_worker

listed : contains first_id (codes "x" ∷ first_id ∷ []) ≡ true
unfolding contains ◌===◌
listed = refl

is_one : is_uuid first_id ≡ true
unfolding is_uuid
is_one = refl

few : 2 < 5
few = omega arith

start_up-Ready_example :
    (result (start_up memory 5 30 (codes "42") worker_one) stopped_worker ≡ some 2)
    × Ready memory worker_one 30 stopped_worker started
unfolding ◌===◌
start_up-Ready_example =
    start_up-Ready memory worker_one 5 30 (codes "42") first_id stopped_worker refl listed is_one
      few

abbrev two_due : World memory
two_due = record (world_of (job_at retrying 1)) {
  delayed = (codes "j1", 900) ∷ (codes "j2", 950) ∷ (codes "j3", 2000) ∷ [];
}

IsDistinct-due : IsDistinct (codes "j1" ∷ codes "j2" ∷ [])
unfolding contains ◌===◌
IsDistinct-due = (refl, (refl, tt))

promote_due-Promoted_example :
    (result (promote_due memory) two_due ≡ 2)
    × Promoted memory (codes "j1" ∷ codes "j2" ∷ []) two_due (final (promote_due memory) two_due)
unfolding ◌===◌
promote_due-Promoted_example = promote_due-Promoted memory two_due IsDistinct-due

abbrev requested : World memory
requested =
    final (create_job memory true parse_any first_id none (str (codes "always_fail")) webhook)
      (world_of (job_at running 1))

create_job-serve_next_example :
    Ran memory worker_one execution
      (new_row first_id always_fail webhook none 1000)
      (world_of (job_at running 1))
      requested
      (result (serve_next memory worker_one execution) requested)
      (final (serve_next memory worker_one execution) requested)
unfolding find_key find is_job_type validate_payload is_uuid ◌===◌
create_job-serve_next_example =
    create_job-serve_next memory true parse_any (world_of (job_at running 1)) first_id none
      (str (codes "always_fail")) webhook always_fail refl refl refl refl worker_one execution refl
      refl refl refl
