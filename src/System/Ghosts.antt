-- ===== src/System/Ghosts.antt =====
-- The ids on the queues in all interleavings of all processes.
use queue_flow.Base.{◌≡◌, subst, sym, [], All}
use queue_flow.Proc.{Task, Config, Reach, Reach-Good}
use queue_flow.Store.Redis.{Redis}
use queue_flow.Store.World.{World}
use queue_flow.Store.Known.{Known, Grows, Grows-refl, Grows-trans, Keeps, Any, Keeps-bind}
use queue_flow.Worker.Loop.Ghosts.{serve_next-Keeps, recover-Keeps}
use queue_flow.Scheduler.Ghosts.{promote_due-Keeps}
use queue_flow.Scheduler.Reaper.Ghosts.{reap_dead-Keeps, sweep_orphans-Keeps}
use queue_flow.Api.Ghosts.{create_job-Keeps, replay_job-Keeps}
use queue_flow.Scheduler.Main.Ghosts.{main_turn-Keeps}
use queue_flow.Heartbeat.{beat}
use queue_flow.System.{
  Starts, create, replay, serve, recover, promote, reap, sweep, turn, refresh, Outside, pass,
}

module _ (R : Redis) where
  Starts-Keeps : (s : World R) (p : Task (World R)) → Known R s → Starts R s p → Keeps R (Any R) p s
  unfolding beat
  Starts-Keeps s p i (create allow_private parse_url id key type payload) =
      Keeps-bind R _ _ s (create_job-Keeps R allow_private parse_url id key type payload s)
        (λ a t. tt)
  Starts-Keeps s p i (replay reads_uuid id) =
      Keeps-bind R _ _ s (replay_job-Keeps R reads_uuid id s) (λ a t. tt)
  Starts-Keeps s p i (serve cfg ex) = Keeps-bind R _ _ s (serve_next-Keeps R cfg ex s) (λ a t. tt)
  Starts-Keeps s p i (recover fuel ttl_s cfg) =
      Keeps-bind R _ _ s (recover-Keeps R cfg fuel ttl_s s) (λ a t. tt)
  Starts-Keeps s p i promote = Keeps-bind R _ _ s (promote_due-Keeps R s) (λ a t. tt)
  Starts-Keeps s p i (reap fuel) = Keeps-bind R _ _ s (reap_dead-Keeps R fuel s) (λ a t. tt)
  Starts-Keeps s p i (sweep fuel age) =
      Keeps-bind R _ _ s (sweep_orphans-Keeps R fuel age s) (λ a t. tt)
  Starts-Keeps s p i (turn stop fuel age interval_ms next_reap_at) =
      Keeps-bind R _ _ s (main_turn-Keeps R stop fuel age interval_ms next_reap_at s) (λ a t. tt)
  Starts-Keeps s p i (refresh ttl_s pid worker_id) =
      λ t g k. (record { lists = k.lists; delayed = k.delayed }, λ j h. h, tt)

  Outside-Known : (s t : World R) → Known R s → Outside R s t → Known R t × Grows R s t
  Outside-Known s t i (pass clock beats) =
      (record { lists = i.lists; delayed = i.delayed }, λ j h. h)

  -- From any state in which every id on a Redis list or in the delayed set is the id of a row,
  -- with no process running: whatever requests, replays (of ids that are spelled as Postgres
  -- prints them or are no uuids), workers, recoveries, promotions, reaps and sweeps start,
  -- however their commands interleave, wherever any of them stops, and whatever time and
  -- heartbeats do, it stays so in every state that is reached.
  pub no_ghosts :
      {c d : Config (World R)}
      → Known R c.state
      → c.tasks ≡ []
      → Reach (Starts R) (Outside R) c d
      → Known R d.state
  no_ghosts i e reach =
      (Reach-Good (Starts R) (Outside R) (Known R) (Grows R) (Grows-refl R) (Grows-trans R)
        Starts-Keeps Outside-Known (i, subst (All _) (sym e) tt) reach).0
