-- ===== src/Worker/Sound.antt =====
-- src/worker/index.ts: processOne, command by command, and the columns of the rows.
use queue_flow.Base.{
  ℕ, ◌≡◌, refl, inl, inr, Option, none, some, List, Text, true, ◌===◌, leb, Bool-cases,
  Option-cases, arith, ◌∷◌,
}
use queue_flow.Types.{JobRow, JobRecord, row_to_job}
use queue_flow.Store.Jobs.{Effect, find, returning}
use queue_flow.Store.Redis.{Redis}
use queue_flow.Store.World.{World}
use queue_flow.Store.Rows.{IsSound, All-update, update-succeeds, has_effect, Rows, KeepsRows}
use queue_flow.Worker.{
  Commit, commits, rolls_back, reply_lost, WorkerConfig, Execution, set_claimed, owns,
  set_succeeded, set_dead, set_retrying, settle, bury, schedule, park, fail_job, record_success,
  after_handler, after_claim, after_select, process_one,
}

succeeded-IsSound :
    (e : Effect) (es : List Effect) (now : ℕ) (r : JobRow)
    → (e.job_id === r.id) ≡ true
    → IsSound (e ∷ es) (set_succeeded now r)
unfolding set_succeeded has_effect
succeeded-IsSound e es now r h = (refl, ground (arith, h))

module _ (R : Redis) (cfg : WorkerConfig) (ex : Execution) where
  schedule-Sound :
      (id : Text) (run_at delay : ℕ) (row : Option JobRow)
      → KeepsRows R (schedule R id run_at delay row)
  unfolding schedule
  schedule-Sound id run_at delay none = tt
  schedule-Sound id run_at delay (some r) = λ t. (λ i. i, tt)

  bury-Sound : (job : JobRecord) (message : Text) → KeepsRows R (bury R cfg ex job message)
  unfolding bury set_dead
  bury-Sound job message t = (
    All-update (IsSound t.db.effects) job.id _ (set_dead message t.clock) t.db.jobs
        (λ r. (refl, refl)),
    tt,
  )

  park-Sound : (job : JobRecord) (message : Text) → KeepsRows R (park R cfg ex job message)
  unfolding park set_retrying
  park-Sound job message t = (
    λ i. i,
    λ u. (
      All-update (IsSound u.db.effects) job.id _ (set_retrying message _ u.clock) u.db.jobs
          (λ r. (refl, refl)),
      schedule-Sound job.id _ _ _,
    ),
  )

  fail_job-Sound : (job : JobRecord) (message : Text) → KeepsRows R (fail_job R cfg ex job message)
  unfolding fail_job
  fail_job-Sound job message = elim (Bool-cases (leb job.max_attempts job.attempts)) [
    | inl e ↦ rw e (bury-Sound job message)
    | inr e ↦ rw e (park-Sound job message)
  ]

  settle-Sound : (id : Text) (w : World R) → Rows R w → Rows R (settle R cfg ex.lease id w)
  unfolding settle
  settle-Sound id w i =
      let effect : Effect = record { job_id = id; worker_id = cfg.worker_id; ran_at = w.clock } in
      elim (Option-cases
        (returning id (owns cfg.fencing ex.lease) (set_succeeded w.clock) w.db.jobs)) [
          | inl e ↦ rw (e, settle) i
          | inr (r, e) ↦
              rw (e, settle)
                (update-succeeds effect w.db.effects (owns cfg.fencing ex.lease)
                  (set_succeeded w.clock) w.db.jobs (succeeded-IsSound effect w.db.effects w.clock)
                  i)
        ]

  record_success-Sound :
      (job : JobRecord) (end : Commit) → KeepsRows R (record_success R cfg ex job end)
  unfolding record_success
  record_success-Sound job commits = λ t. (settle-Sound job.id t, tt)
  record_success-Sound job (rolls_back message) = fail_job-Sound job message
  record_success-Sound job (reply_lost message) =
      λ t. (settle-Sound job.id t, fail_job-Sound job message)

  after_handler-Sound :
      (job : JobRecord) (thrown : Option Text) → KeepsRows R (after_handler R cfg ex job thrown)
  unfolding after_handler
  after_handler-Sound job none = record_success-Sound job ex.commit
  after_handler-Sound job (some message) = fail_job-Sound job message

  after_claim-Sound :
      (job : JobRecord) (claim : Option JobRow) → KeepsRows R (after_claim R cfg ex job claim)
  unfolding after_claim
  after_claim-Sound job none = tt
  after_claim-Sound job (some r) = after_handler-Sound (record job { attempts = r.attempts }) _

  after_select-Sound : (row : Option JobRow) → KeepsRows R (after_select R cfg ex row)
  unfolding after_select set_claimed row_to_job
  after_select-Sound none = tt
  after_select-Sound (some r) = λ t. (
    All-update (IsSound t.db.effects) r.id _ (set_claimed ex.lease t.clock) t.db.jobs
        (λ x. (refl, refl)),
    after_claim-Sound (row_to_job r) _,
  )

  pub process_one-Sound : (id : Text) → KeepsRows R (process_one R cfg ex id)
  unfolding process_one
  process_one-Sound id t = (λ i. i, after_select-Sound (find id t.db.jobs))
