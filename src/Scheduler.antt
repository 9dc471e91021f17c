-- ===== src/Scheduler.antt =====
-- src/scheduler/index.ts: due retries go back to the pending list, and lost work is recovered.
pub mod Reaper
pub mod Ghosts
pub mod Sound
pub mod Promotes
pub mod Main
pub mod Loop
use queue_flow.Base.{
  ℕ, ◌+◌, ◌-◌, Bool, true, false, Option, none, some, List, [], ◌∷◌, Text, min, leb, ◌==◌,
  if◌then◌else◌,
}
use queue_flow.Keys.{pending}
use queue_flow.Proc.{Proc, done, ◌>>=◌, ◌>>◌, read}
use queue_flow.Types.{JobRow, queued}
use queue_flow.Store.Redis.{Redis}
use queue_flow.Store.World.{World, update_job, zrem, lpush, read_clock}

abbrev pub max_sleep_ms : ℕ
max_sleep_ms = 1000

abbrev pub batch : ℕ
batch = 100

abbrev pub always : JobRow → Bool
always r = true

unfoldable pub set_promoted : ℕ → JobRow → JobRow
set_promoted now r = record r { status = queued; next_run_at = none }

module _ (R : Redis) where
  -- ZREM is the claim: only the scheduler that removed the id goes on to push it.
  promote_claimed : Text → Bool → Proc (World R) ℕ
  promote_claimed id false = done 0
  promote_claimed id true = do update_job R id always set_promoted; lpush R pending id; done 1

  promote_one : Text → Proc (World R) ℕ
  unfolding promote_claimed
  promote_one id = do claimed ← zrem R id; promote_claimed id claimed

  promote_each : List Text → ℕ → Proc (World R) ℕ
  unfolding promote_one
  promote_each [] promoted = done promoted
  promote_each (id ∷ ids) promoted = do moved ← promote_one id; promote_each ids (promoted + moved)

  unfoldable pub promote_due : Proc (World R) ℕ
  unfolding promote_each
  promote_due = do
    time ← read_clock R
    due ← read (λ w. R.zrangebyscore w.delayed time batch)
    promote_each due 0

  -- How long sleepUntilNextDue sleeps: `-` stops at 0, as Math.max(0, …) does.
  unfoldable pub sleep_until_next_due : Proc (World R) ℕ
  sleep_until_next_due = do
    first ← read (λ w. R.zfirst w.delayed)
    time ← read_clock R
    done (elim first [ none ↦ max_sleep_ms | some score ↦ min (score - time) max_sleep_ms ])
