-- ===== src/Worker/Start.antt =====
-- src/worker/index.ts: what main does before its loop: the recovery, then the first heartbeat, and
-- only then the handler of signals (whose drain ends with the heartbeat) and the loop.
pub mod Ready
use queue_flow.Base.{ℕ, Option, Text}
use queue_flow.Proc.{Proc, done, ◌>>=◌, ◌>>◌}
use queue_flow.Store.Redis.{Redis}
use queue_flow.Store.World.{World}
use queue_flow.Worker.{WorkerConfig}
use queue_flow.Worker.Loop.{recover_own_processing}
use queue_flow.Heartbeat.{beat}

module _ (R : Redis) where
  -- The result is that of the recovery: the number of entries moved.
  unfoldable pub start_up : ℕ → ℕ → Text → WorkerConfig → Proc (World R) (Option ℕ)
  start_up fuel ttl_s pid cfg = do
    moved ← recover_own_processing R fuel ttl_s cfg
    beat R ttl_s pid cfg.worker_id
    done moved
