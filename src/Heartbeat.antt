-- ===== src/Heartbeat.antt =====
-- src/shared/heartbeat.ts: the key that tells that a worker is alive. `beat` is what
-- startHeartbeat does first and what its timer repeats; `pid` is String(process.pid).
pub mod Alive
pub mod Timer
use queue_flow.Base.{ℕ, Text}
use queue_flow.Keys.{alive}
use queue_flow.Proc.{Proc, write}
use queue_flow.Store.Redis.{Redis}
use queue_flow.Store.World.{World}

module _ (R : Redis) where
  unfoldable pub beat : ℕ → Text → Text → Proc (World R) (Unit {0})
  beat ttl_s pid worker_id =
      write (λ w. record w { beats = R.set_ex w.beats w.clock (alive worker_id) pid ttl_s })
