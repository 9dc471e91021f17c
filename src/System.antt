-- ===== src/System.antt =====
-- The whole system: requests, workers and schedulers over one world, interleaved command by
-- command, each of which may stop at any point.
pub mod Ghosts
pub mod Sound
pub mod Lifecycle
use queue_flow.Base.{ℕ, Bool, Option, Text}
use queue_flow.Json.{Value}
use queue_flow.Proc.{Proc, done, ◌>>=◌, ◌>>◌, Task}
use queue_flow.Types.Validate.{Url}
use queue_flow.Store.Redis.{Redis}
use queue_flow.Store.World.{World}
use queue_flow.Worker.{WorkerConfig, Execution}
use queue_flow.Worker.Loop.{serve_next, recover_own_processing}
use queue_flow.Scheduler.{promote_due}
use queue_flow.Scheduler.Reaper.{reap_dead, sweep_orphans}
use queue_flow.Scheduler.Main.{main_turn}
use queue_flow.Heartbeat.{beat}
use queue_flow.Api.{create_job, replay_job, as_printed}

module _ (R : Redis) where
  -- What may start, at any time and as often as one likes.
  pub data Starts (s : World R) : Task (World R) → Type 0 where
    create :
        (allow_private : Bool) (parse_url : Text → Option Url) (id : Text) (key : Option Text)
        (type payload : Value)
        → Starts s (create_job R allow_private parse_url id key type payload >> done tt)
    replay :
        (reads_uuid : Text → Bool) (id : Text)
        → Starts s (replay_job R (as_printed reads_uuid) id >> done tt)
    serve : (cfg : WorkerConfig) (ex : Execution) → Starts s (serve_next R cfg ex >> done tt)
    recover :
        (fuel ttl_s : ℕ) (cfg : WorkerConfig)
        → Starts s (recover_own_processing R fuel ttl_s cfg >> done tt)
    promote : Starts s (promote_due R >> done tt)
    reap : (fuel : ℕ) → Starts s (reap_dead R fuel >> done tt)
    turn :
        (stop fuel age interval_ms next_reap_at : ℕ)
        → Starts s (main_turn R stop fuel age interval_ms next_reap_at >> done tt)
    refresh : (ttl_s : ℕ) (pid worker_id : Text) → Starts s (beat R ttl_s pid worker_id)
    sweep : (fuel age : ℕ) → Starts s (sweep_orphans R fuel age >> done tt)

  -- Time passes and heartbeats come and go.
  pub data Outside (s : World R) : World R → Type 0 where
    pass : (clock : ℕ) (beats : R.Beats) → Outside s (record s { clock = clock; beats = beats })
