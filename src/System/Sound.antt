-- ===== src/System/Sound.antt =====
-- The columns of the rows in all interleavings of all processes.
use queue_flow.Base.{◌≡◌, subst, sym, [], All}
use queue_flow.Proc.{Proc, done, ◌>>=◌, Task, Config, Reach, Reach-Good}
use queue_flow.Store.Redis.{Redis}
use queue_flow.Store.World.{World}
use queue_flow.Store.Rows.{Rows, KeepsRows, KeepsRows-bind, KeepsRows-Safe}
use queue_flow.Worker.Loop.Sound.{serve_next-Sound, recover-Sound}
use queue_flow.Scheduler.Sound.{promote_due-Sound}
use queue_flow.Scheduler.Reaper.Sound.{reap_dead-Sound, sweep_orphans-Sound}
use queue_flow.Scheduler.Main.Sound.{main_turn-Sound}
use queue_flow.Api.{as_printed}
use queue_flow.Api.Sound.{create_job-Sound, replay_job-Sound}
use queue_flow.Heartbeat.{beat}
use queue_flow.System.{
  Starts, create, replay, serve, recover, promote, reap, sweep, turn, refresh, Outside, pass,
}

module _ (R : Redis) where
  KeepsRows-end :
      {A : Type 0} (p : Proc (World R) A) → KeepsRows R p → KeepsRows R (p >>= λ _. done tt)
  KeepsRows-end p h = KeepsRows-bind R p _ h (λ a. tt)

  Starts-KeepsRows : (s : World R) (p : Task (World R)) → Starts R s p → KeepsRows R p
  unfolding beat
  Starts-KeepsRows s p (create allow_private parse_url id key type payload) =
      KeepsRows-end _ (create_job-Sound R allow_private parse_url id key type payload)
  Starts-KeepsRows s p (replay reads_uuid id) =
      KeepsRows-end _ (replay_job-Sound R (as_printed reads_uuid) id)
  Starts-KeepsRows s p (serve cfg ex) = KeepsRows-end _ (serve_next-Sound R cfg ex)
  Starts-KeepsRows s p (recover fuel ttl_s cfg) = KeepsRows-end _ (recover-Sound R cfg fuel ttl_s)
  Starts-KeepsRows s p promote = KeepsRows-end _ (promote_due-Sound R)
  Starts-KeepsRows s p (reap fuel) = KeepsRows-end _ (reap_dead-Sound R fuel)
  Starts-KeepsRows s p (sweep fuel age) = KeepsRows-end _ (sweep_orphans-Sound R fuel age)
  Starts-KeepsRows s p (turn stop fuel age interval_ms next_reap_at) =
      KeepsRows-end _ (main_turn-Sound R stop fuel age interval_ms next_reap_at)
  Starts-KeepsRows s p (refresh ttl_s pid worker_id) = λ t. (λ i. i, tt)

  Outside-Rows : (s t : World R) → Rows R s → Outside R s t → Rows R t × Unit {0}
  Outside-Rows s t i (pass clock beats) = (i, tt)

  -- From any state with no process running in which every running row has a lease and a start,
  -- every retrying row an error and a next time, every dead row an error and an end, every
  -- succeeded row an end and an effect under its id, and no row is failed: whatever requests,
  -- replays (of ids that are spelled as Postgres prints them or are no uuids), workers,
  -- recoveries, promotions, reaps and sweeps start, however their commands interleave,
  -- wherever any of them stops, with fencing or without, and whatever time and heartbeats do,
  -- it stays so in every state that is reached.
  pub Reach-Rows :
      {c d : Config (World R)}
      → Rows R c.state
      → c.tasks ≡ []
      → Reach (Starts R) (Outside R) c d
      → Rows R d.state
  Reach-Rows i e reach =
      (Reach-Good (Starts R) (Outside R) (Rows R) (λ _ _. Unit {0}) (λ _. tt) (λ _ _ _ _ _. tt)
        (λ s p i start. KeepsRows-Safe R p s (Starts-KeepsRows s p start)) Outside-Rows
        (i, subst (All _) (sym e) tt) reach).0
