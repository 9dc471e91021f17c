-- ===== src/Scheduler/Main.antt =====
-- src/scheduler/index.ts: recoverLostWork and one turn of the loop in main.
pub mod Ghosts
pub mod Sound
use queue_flow.Base.{ℕ, ◌+◌, Bool, true, false, Option, none, some, leb, ◌==◌}
use queue_flow.Proc.{Proc, done, ◌>>=◌, ◌>>◌, cut}
use queue_flow.Store.Redis.{Redis}
use queue_flow.Store.World.{World, read_clock}
use queue_flow.Scheduler.{promote_due, sleep_until_next_due}
use queue_flow.Scheduler.Reaper.{reap_dead, sweep_orphans}

abbrev with_swept : ℕ → Option ℕ → Option (ℕ × ℕ)
with_swept reaped none = none
with_swept reaped (some swept) = some (reaped, swept)

module _ (R : Redis) where
  sweep_after : ℕ → ℕ → Option ℕ → Proc (World R) (Option (ℕ × ℕ))
  sweep_after fuel age none = done none
  sweep_after fuel age (some reaped) = do
    swept ← sweep_orphans R fuel age
    done (with_swept reaped swept)

  -- The `try` block of recoverLostWork: the jobs rescued, and the orphans requeued.
  unfoldable pub recovery : ℕ → ℕ → Proc (World R) (Option (ℕ × ℕ))
  unfolding sweep_after
  recovery fuel age = do reaped ← reap_dead R fuel; sweep_after fuel age reaped

  -- An error in it is caught: it then stops after `stop` commands, and the loop goes on.
  recover_lost_work : ℕ → ℕ → ℕ → Proc (World R) (Option (Option (ℕ × ℕ)))
  unfolding recovery
  recover_lost_work stop fuel age = cut stop (recovery fuel age)

  -- `if (Date.now() >= nextReapAt)`; the result is the new nextReapAt.
  reap_if : ℕ → ℕ → ℕ → ℕ → ℕ → Bool → Proc (World R) ℕ
  unfolding recover_lost_work
  reap_if stop fuel age interval_ms next_reap_at false = done next_reap_at
  reap_if stop fuel age interval_ms next_reap_at true = do
    time ← read_clock R
    recover_lost_work stop fuel age
    done (time + interval_ms)

  sleep_if : Bool → Proc (World R) (Option ℕ)
  sleep_if false = done none
  sleep_if true = do ms ← sleep_until_next_due R; done (some ms)

  -- One turn: the new nextReapAt, and how long the loop sleeps before the next turn.
  unfoldable pub main_turn : ℕ → ℕ → ℕ → ℕ → ℕ → Proc (World R) (ℕ × Option ℕ)
  unfolding reap_if sleep_if
  main_turn stop fuel age interval_ms next_reap_at = do
    promoted ← promote_due R
    time ← read_clock R
    next ← reap_if stop fuel age interval_ms next_reap_at (leb next_reap_at time)
    slept ← sleep_if (promoted == 0)
    done (next, slept)
