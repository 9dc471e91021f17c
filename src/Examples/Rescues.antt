-- ===== src/Examples/Rescues.antt =====
-- The results on the scheduler and the reaper at concrete worlds.
use queue_flow.Base.{
  ℕ, ◌+◌, ◌≤◌, ◌≡◌, refl, some, ◌===◌, [], ◌∷◌, Text, codes, length, arith, ◌*◌, ◌<◌,
}
use queue_flow.Proc.{result, final}
use queue_flow.Types.{JobRow, running}
use queue_flow.Store.Jobs.{find}
use queue_flow.Store.World.{World}
use queue_flow.Keys.{pending, processing, is_empty, worker_id_from_processing_key}
use queue_flow.Scheduler.Reaper.{is_handled, reap_key, reap_worker}
use queue_flow.Scheduler.Reaper.Ends.{reap_worker-empties}
use queue_flow.Types.{is_uuid}
use queue_flow.Heartbeat.{beat}
use queue_flow.Heartbeat.Alive.{reap_key-spares}
use queue_flow.Scheduler.Reaper.Rescue.{reap_worker-rescues}
use queue_flow.Examples.Memory.{put, memory}
use queue_flow.Examples.Worlds.{job_at, world_of, claimed}

abbrev silent_worker : World memory
silent_worker = record (world_of (record claimed { started_at = some 5 })) {
  lists = put (λ key. []) (processing (codes "w9")) (codes "j1" ∷ codes "x" ∷ []);
}

reap_worker-empties_example :
    (n : ℕ) × (result (reap_worker memory 3 (processing (codes "w9")) (codes "w9") 0) silent_worker
      ≡ some (0 + n))
    × (n ≤ length (memory.lrange silent_worker.lists (processing (codes "w9"))))
    × (memory.lrange
          (final
            (reap_worker memory 3 (processing (codes "w9")) (codes "w9") 0)
            silent_worker).lists
          (processing (codes "w9"))
        ≡ [])
unfolding ◌===◌
reap_worker-empties_example =
    reap_worker-empties memory (processing (codes "w9")) (codes "w9") refl 3 0 silent_worker
      (omega arith)

fresh_w1 : 20000 < 1000 + 30 * 1000
fresh_w1 = omega arith

abbrev beaten : World memory
beaten = record (final (beat memory 30 (codes "41") (codes "w1")) (world_of (job_at running 1))) {
  clock = 20000;
}

reap_key-spares_example :
    (result
        (reap_key memory 5
          (processing (codes "w1"))
          (worker_id_from_processing_key (processing (codes "w1"))))
        beaten
      ≡ some 0)
    × (final
          (reap_key memory 5
            (processing (codes "w1"))
            (worker_id_from_processing_key (processing (codes "w1"))))
          beaten
        ≡ beaten)
unfolding is_empty
reap_key-spares_example =
    reap_key-spares memory 30 (codes "41") (codes "w1") (world_of (job_at running 1)) 20000 fresh_w1
      5 refl

abbrev held_id : Text
held_id = codes "0a0b0c0d-0000-4000-8000-000000000001"

abbrev held_job : JobRow
held_job = record (job_at running 1) { id = held_id; started_at = some 5 }

abbrev crashed_worker : World memory
crashed_worker = record (world_of held_job) {
  lists = put (λ key. []) (processing (codes "w9")) (held_id ∷ codes "x" ∷ []);
}

reap_worker-rescues_example :
    memory.lrange
      (final (reap_worker memory 3 (processing (codes "w9")) (codes "w9") 0) crashed_worker).lists
      pending
    ≡ held_id ∷ []
unfolding ◌===◌ is_uuid find is_handled
reap_worker-rescues_example =
    reap_worker-rescues memory (processing (codes "w9")) (codes "w9") refl 3 0 crashed_worker
      (omega arith)
