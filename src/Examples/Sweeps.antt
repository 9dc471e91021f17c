-- ===== src/Examples/Sweeps.antt =====
-- The sweep of reaper.ts at a concrete world: one queued row is on no list, another is held.
use queue_flow.Base.{◌≡◌, ◌⊎◌, refl, true, some, ◌===◌, List, [], ◌∷◌, Text, codes, length}
use queue_flow.Keys.{pending, processing}
use queue_flow.Proc.{result, final}
use queue_flow.Types.{JobRow, queued}
use queue_flow.Store.Redis.{contains}
use queue_flow.Store.World.{World, scan_keys}
use queue_flow.Scheduler.Reaper.{select_orphans, ids_held_by_redis, sweep_orphans, batch}
use queue_flow.Scheduler.Reaper.Orphans.{missing}
use queue_flow.Scheduler.Reaper.Sweep.{sweep_orphans-requeues, contains-sweep_orphans, Pushes}
use queue_flow.Examples.Memory.{put, memory}
use queue_flow.Examples.Worlds.{job_at, world_of}

abbrev held_row : JobRow
held_row = record (job_at queued 0) { id = codes "j2" }

abbrev forgotten : World memory
forgotten = record (world_of (job_at queued 0)) {
  db = record { jobs = job_at queued 0 ∷ held_row ∷ []; effects = [] };
  lists = put (λ key. []) (processing (codes "w1")) (codes "j2" ∷ []);
}

seen : result (ids_held_by_redis memory 3) forgotten ≡ some (codes "j2" ∷ [])
unfolding ids_held_by_redis scan_keys ◌===◌
seen = refl

abbrev lost : List Text
lost = missing (codes "j2" ∷ []) (result (select_orphans memory 0) forgotten)

sweep_orphans-requeues_example :
    (result (sweep_orphans memory 3 0) forgotten ≡ some (length lost))
    × Pushes memory forgotten (final (sweep_orphans memory 3 0) forgotten) lost
sweep_orphans-requeues_example = sweep_orphans-requeues memory 3 0 (codes "j2" ∷ []) forgotten seen

-- The row that is on no list is the one that is pushed.
lost_row : lost ≡ codes "j1" ∷ []
unfolding select_orphans missing contains ◌===◌
lost_row = refl

contains-sweep_orphans_example :
    (contains (codes "j1") (codes "j2" ∷ []) ≡ true)
    ⊎ (contains
          (codes "j1")
          (memory.lrange (final (sweep_orphans memory 3 0) forgotten).lists pending)
        ≡ true)
    ⊎ (length (result (select_orphans memory 0) forgotten) ≡ batch)
contains-sweep_orphans_example =
    contains-sweep_orphans memory 3 0 (codes "j2" ∷ []) forgotten [] (held_row ∷ [])
      (job_at queued 0) seen refl refl
