-- ===== src/Examples/Requests.antt =====
-- The results on requests to the API, and on a whole system, at concrete worlds.
use queue_flow.Base.{◌≡◌, refl, inl, true, none, some, ◌===◌, [], ◌∷◌, codes}
use queue_flow.Json.{str}
use queue_flow.Proc.{done, result, final, Config, Reach, here, next, run, arrive}
use queue_flow.Types.{JobRow, queued, running, dead}
use queue_flow.Store.Jobs.{find, find_key, returning}
use queue_flow.Store.World.{World}
use queue_flow.Store.Known.{Known}
use queue_flow.Keys.{pending}
use queue_flow.Types.{always_fail, is_job_type}
use queue_flow.Types.Validate.{validate_payload}
use queue_flow.Api.{
  replay_job, replay_read, after_replay, create_job, accepted, deduplicated, not_dead,
}
use queue_flow.Api.Outcomes.{create_job-deduplicates, replay_job-once}
use queue_flow.System.{Starts, Outside, replay}
use queue_flow.System.Ghosts.{no_ghosts}
use queue_flow.Examples.Memory.{memory}
use queue_flow.Examples.Worlds.{job_at, world_of, parse_any, webhook}

abbrev replayed : World memory
replayed = final (replay_job memory some (codes "j1")) (world_of (job_at dead 5))

job_at-Known : Known memory (world_of (job_at dead 5))
job_at-Known = record { lists = λ key. tt; delayed = λ id. inl refl }

abbrev before_replay : Config (World memory)
before_replay = record { state = world_of (job_at dead 5); tasks = [] }

replay_runs :
    Reach
      (Starts memory)
      (Outside memory)
      before_replay
      (record { state = replayed; tasks = done tt ∷ [] })
unfolding replay_job replay_read after_replay returning find ◌===◌
replay_runs =
    next
      (next (next here (arrive before_replay _ (replay (λ x. true) (codes "j1"))))
        (run _ [] [] _ _ refl))
      (run _ [] [] _ _ refl)

no_ghosts_example : Known memory replayed
no_ghosts_example = no_ghosts memory job_at-Known refl replay_runs

abbrev keyed : JobRow
keyed = record (job_at running 1) { idempotency_key = some (codes "k") }

create_job-deduplicates_example :
    (result
        (create_job memory true parse_any
          (codes "j2")
          (some (codes "k"))
          (str (codes "always_fail"))
          webhook)
        (world_of keyed)
      ≡ deduplicated (codes "j1") running)
    × (final
          (create_job memory true parse_any
            (codes "j2")
            (some (codes "k"))
            (str (codes "always_fail"))
            webhook)
          (world_of keyed)
        ≡ world_of keyed)
unfolding find_key is_job_type validate_payload ◌===◌
create_job-deduplicates_example =
    create_job-deduplicates memory true parse_any (world_of keyed) (codes "j2") (some (codes "k"))
      (str (codes "always_fail")) webhook always_fail refl refl keyed refl

abbrev after_create : World memory
after_create =
    final (create_job memory true parse_any (codes "j2") none (str (codes "always_fail")) webhook)
      (world_of keyed)

replay_job-once_example :
    (result (replay_job memory some (codes "j1")) (world_of (job_at dead 5))
      ≡ accepted (codes "j1"))
    × (find (codes "j1") replayed.db.jobs ≡ some (job_at queued 0))
    × (memory.lrange replayed.lists pending ≡ codes "j1" ∷ [])
    × (result (replay_job memory some (codes "j1")) replayed ≡ not_dead queued)
    × (final (replay_job memory some (codes "j1")) replayed ≡ replayed)
unfolding find ◌===◌
replay_job-once_example =
    replay_job-once memory some (world_of (job_at dead 5)) (codes "j1") (codes "j1") (job_at dead 5)
      refl refl refl
