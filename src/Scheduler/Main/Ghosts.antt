-- ===== src/Scheduler/Main/Ghosts.antt =====
-- src/scheduler/index.ts: the loop, with recovery passes that fail, and the ids on the queues.
use queue_flow.Base.{ℕ, Bool, true, false, leb, ◌==◌, Option, none, some}
use queue_flow.Proc.{cut, Safe-cut}
use queue_flow.Store.Redis.{Redis}
use queue_flow.Store.World.{World}
use queue_flow.Store.Known.{Known, Grows, Keeps, Any, Keeps-bind}
use queue_flow.Scheduler.{promote_due, sleep_until_next_due}
use queue_flow.Scheduler.Ghosts.{promote_due-Keeps}
use queue_flow.Scheduler.Reaper.{reap_dead, sweep_orphans}
use queue_flow.Scheduler.Reaper.Ghosts.{reap_dead-Keeps, sweep_orphans-Keeps}
use queue_flow.Scheduler.Main.{
  sweep_after, recovery, recover_lost_work, reap_if, sleep_if, main_turn,
}

module _ (R : Redis) where
  sweep_after-Keeps :
      (fuel age : ℕ) (reaped : Option ℕ) (s : World R)
      → Keeps R (Any R) (sweep_after R fuel age reaped) s
  unfolding sweep_after
  sweep_after-Keeps fuel age none s = tt
  sweep_after-Keeps fuel age (some n) s =
      Keeps-bind R (sweep_orphans R fuel age) _ s (sweep_orphans-Keeps R fuel age s) (λ a v. tt)

  recovery-Keeps : (fuel age : ℕ) (s : World R) → Keeps R (Any R) (recovery R fuel age) s
  unfolding recovery
  recovery-Keeps fuel age s =
      Keeps-bind R (reap_dead R fuel) _ s (reap_dead-Keeps R fuel s) (sweep_after-Keeps fuel age)

  reap_if-Keeps :
      (stop fuel age interval_ms next_reap_at : ℕ) (due : Bool) (s : World R)
      → Keeps R (Any R) (reap_if R stop fuel age interval_ms next_reap_at due) s
  unfolding reap_if recover_lost_work
  reap_if-Keeps stop fuel age interval_ms next_reap_at false s = tt
  reap_if-Keeps stop fuel age interval_ms next_reap_at true s = λ t g i. (
    i,
    λ j x. x,
    Keeps-bind R (cut stop (recovery R fuel age)) _ t
        (Safe-cut (Known R) (Grows R) stop (recovery R fuel age) t (recovery-Keeps fuel age t))
        (λ a v. tt),
  )

  sleep_if-Keeps : (b : Bool) (s : World R) → Keeps R (Any R) (sleep_if R b) s
  unfolding sleep_if sleep_until_next_due
  sleep_if-Keeps false s = tt
  sleep_if-Keeps true s = λ t g i. (i, λ j x. x, λ v h k. (k, λ j x. x, tt))

  pub main_turn-Keeps :
      (stop fuel age interval_ms next_reap_at : ℕ) (s : World R)
      → Keeps R (Any R) (main_turn R stop fuel age interval_ms next_reap_at) s
  unfolding main_turn
  main_turn-Keeps stop fuel age interval_ms next_reap_at s =
      Keeps-bind R (promote_due R) _ s (promote_due-Keeps R s) (λ promoted t t' g i. (
        i,
        λ j x. x,
        Keeps-bind R (reap_if R stop fuel age interval_ms next_reap_at (leb next_reap_at t'.clock))
            _ t' (reap_if-Keeps stop fuel age interval_ms next_reap_at _ t')
            (λ next v.
              Keeps-bind R (sleep_if R (promoted == 0)) _ v (sleep_if-Keeps (promoted == 0) v)
                (λ a u. tt)),
      ))
