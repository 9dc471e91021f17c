-- ===== src/Scheduler/Main/Sound.antt =====
-- src/scheduler/index.ts: the loop, with recovery passes that fail, and the columns of the rows.
use queue_flow.Base.{ℕ, Bool, true, false, leb, ◌==◌, Option, none, some}
use queue_flow.Proc.{cut, Always-cut}
use queue_flow.Store.Redis.{Redis}
use queue_flow.Store.Rows.{Rows, KeepsRows, KeepsRows-bind}
use queue_flow.Scheduler.{promote_due, sleep_until_next_due}
use queue_flow.Scheduler.Sound.{promote_due-Sound}
use queue_flow.Scheduler.Reaper.{reap_dead, sweep_orphans}
use queue_flow.Scheduler.Reaper.Sound.{reap_dead-Sound, sweep_orphans-Sound}
use queue_flow.Scheduler.Main.{
  sweep_after, recovery, recover_lost_work, reap_if, sleep_if, main_turn,
}

module _ (R : Redis) where
  sweep_after-Sound :
      (fuel age : ℕ) (reaped : Option ℕ) → KeepsRows R (sweep_after R fuel age reaped)
  unfolding sweep_after
  sweep_after-Sound fuel age none = tt
  sweep_after-Sound fuel age (some n) =
      KeepsRows-bind R (sweep_orphans R fuel age) _ (sweep_orphans-Sound R fuel age) (λ a. tt)

  recovery-Sound : (fuel age : ℕ) → KeepsRows R (recovery R fuel age)
  unfolding recovery
  recovery-Sound fuel age =
      KeepsRows-bind R (reap_dead R fuel) _ (reap_dead-Sound R fuel) (sweep_after-Sound fuel age)

  reap_if-Sound :
      (stop fuel age interval_ms next_reap_at : ℕ) (due : Bool)
      → KeepsRows R (reap_if R stop fuel age interval_ms next_reap_at due)
  unfolding reap_if recover_lost_work
  reap_if-Sound stop fuel age interval_ms next_reap_at false = tt
  reap_if-Sound stop fuel age interval_ms next_reap_at true = λ t. (
    λ i. i,
    KeepsRows-bind R (cut stop (recovery R fuel age)) _
        (Always-cut (λ v w. Rows R v → Rows R w) stop (recovery R fuel age)
          (recovery-Sound fuel age))
        (λ a. tt),
  )

  sleep_if-Sound : (b : Bool) → KeepsRows R (sleep_if R b)
  unfolding sleep_if sleep_until_next_due
  sleep_if-Sound false = tt
  sleep_if-Sound true = λ t. (λ i. i, λ v. (λ i. i, tt))

  pub main_turn-Sound :
      (stop fuel age interval_ms next_reap_at : ℕ)
      → KeepsRows R (main_turn R stop fuel age interval_ms next_reap_at)
  unfolding main_turn
  main_turn-Sound stop fuel age interval_ms next_reap_at =
      KeepsRows-bind R (promote_due R) _ (promote_due-Sound R) (λ promoted t. (
        λ i. i,
        KeepsRows-bind R
            (reap_if R stop fuel age interval_ms next_reap_at (leb next_reap_at t.clock)) _
            (reap_if-Sound stop fuel age interval_ms next_reap_at _)
            (λ next.
              KeepsRows-bind R (sleep_if R (promoted == 0)) _ (sleep_if-Sound (promoted == 0))
                (λ a. tt)),
      ))
