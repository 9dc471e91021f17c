-- ===== src/Worker/Slots/Connections.antt =====
-- src/shared/db.ts and src/shared/redis.ts: the size of the pool of connections, next to the slots of
-- the worker, and the wait before a reconnection. CONCURRENCY is a whole number here.
use queue_flow.Base.{ℕ, ◌+◌, ◌*◌, ◌≤◌, ◌≡◌, some, List, min, max, arith}
use queue_flow.Semaphore.{Semaphore, new}
use queue_flow.Worker.Slots.{Event, run, start}
use queue_flow.Worker.Slots.Bounded.{run-bounded}

-- `Math.max(1, Number(process.env.CONCURRENCY ?? 1))`
unfoldable pub slot_count : ℕ → ℕ
slot_count concurrency = max 1 concurrency

-- `max: Math.max(4, Number(process.env.CONCURRENCY ?? 1) + 2)`
pub pool_size : ℕ → ℕ
pool_size concurrency = max 4 (concurrency + 2)

-- `retryStrategy`, in milliseconds
pub reconnect_delay : ℕ → ℕ
reconnect_delay attempt = min (attempt * 200) 2000

-- For every setting of CONCURRENCY and any sequence of events of the main loop: the connections
-- of the pool are enough for all executions at once, with two to spare.
pub pool_size-spare :
    (concurrency : ℕ) (slots : Semaphore) (es : List Event)
    → new (slot_count concurrency) ≡ some slots
    → (run (start slots) es).executions + 2 ≤ pool_size concurrency
unfolding pool_size slot_count
pool_size-spare concurrency slots es e =
    omega (arith, (run-bounded (slot_count concurrency) slots es e).0)
