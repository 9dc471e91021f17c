-- ===== src/Worker/Ghosts.antt =====
-- src/worker/index.ts: processOne, command by command, and the ids on the queues.
use queue_flow.Base.{
  ℕ, ◌≡◌, refl, inl, inr, Option, none, some, Text, leb, Bool-cases, Option-cases,
}
use queue_flow.Types.{JobRow, JobRecord, row_to_job}
use queue_flow.Store.Jobs.{find, find-id, returning}
use queue_flow.Store.Redis.{Redis}
use queue_flow.Store.World.{World}
use queue_flow.Store.Views.{HasRow}
use queue_flow.Store.Known.{Known, Grows, Keeps, Any, update-Keeps, zadd-Known}
use queue_flow.Worker.{
  Commit, commits, rolls_back, reply_lost, WorkerConfig, Execution, set_claimed, owns,
  set_succeeded, set_dead, set_retrying, settle, bury, schedule, park, fail_job, record_success,
  after_handler, after_claim, after_select, process_one,
}

module _ (R : Redis) (cfg : WorkerConfig) (ex : Execution) where
  schedule-Keeps :
      (id : Text) (run_at delay : ℕ) (row : Option JobRow) (s : World R)
      → HasRow s.db.jobs id
      → Keeps R (Any R) (schedule R id run_at delay row) s
  unfolding schedule
  schedule-Keeps id run_at delay none s h = tt
  schedule-Keeps id run_at delay (some r) s h =
      λ t g i. (zadd-Known R t run_at id (g id h) i, λ j x. x, tt)

  bury-Keeps :
      (job : JobRecord) (message : Text) (s : World R)
      → Keeps R (Any R) (bury R cfg ex job message) s
  unfolding bury set_dead
  bury-Keeps job message s t g i =
      let (i', g') = update-Keeps R t job.id _ (set_dead message t.clock) (λ r. refl) i in
      (i', g', tt)

  park-Keeps :
      (job : JobRecord) (message : Text) (s : World R)
      → HasRow s.db.jobs job.id
      → Keeps R (Any R) (park R cfg ex job message) s
  unfolding park set_retrying
  park-Keeps job message s h t g i = (
    i,
    λ j x. x,
    λ t' g' i'.
        let (i'', g'') =
          update-Keeps R t' job.id _ (set_retrying message _ t'.clock) (λ r. refl) i' in
        (i'', g'', schedule-Keeps job.id _ _ _ _ (g'' job.id (g' job.id (g job.id h)))),
  )

  fail_job-Keeps :
      (job : JobRecord) (message : Text) (s : World R)
      → HasRow s.db.jobs job.id
      → Keeps R (Any R) (fail_job R cfg ex job message) s
  unfolding fail_job
  fail_job-Keeps job message s h = elim (Bool-cases (leb job.max_attempts job.attempts)) [
    | inl e ↦ rw e (bury-Keeps job message s)
    | inr e ↦ rw e (park-Keeps job message s h)
  ]

  settle-Keeps :
      (id : Text) (w : World R)
      → Known R w
      → Known R (settle R cfg ex.lease id w) × Grows R w (settle R cfg ex.lease id w)
  unfolding settle set_succeeded
  settle-Keeps id w i =
      elim (Option-cases
        (returning id (owns cfg.fencing ex.lease) (set_succeeded w.clock) w.db.jobs)) [
          | inl e ↦ rw (e, settle) (i, λ j x. x)
          | inr (r, e) ↦
              rw (e, settle)
                (let (i', g') =
                    update-Keeps R w id (owns cfg.fencing ex.lease) (set_succeeded w.clock)
                      (λ r. refl) i in
                  (record { lists = i'.lists; delayed = i'.delayed }, g'))
        ]

  record_success-Keeps :
      (job : JobRecord) (end : Commit) (s : World R)
      → HasRow s.db.jobs job.id
      → Keeps R (Any R) (record_success R cfg ex job end) s
  unfolding record_success
  record_success-Keeps job commits s h =
      λ t g i. let (i', g') = settle-Keeps job.id t i in (i', g', tt)
  record_success-Keeps job (rolls_back message) s h = fail_job-Keeps job message s h
  record_success-Keeps job (reply_lost message) s h = λ t g i.
      let (i', g') = settle-Keeps job.id t i in
      (i', g', fail_job-Keeps job message _ (g' job.id (g job.id h)))

  after_handler-Keeps :
      (job : JobRecord) (thrown : Option Text) (s : World R)
      → HasRow s.db.jobs job.id
      → Keeps R (Any R) (after_handler R cfg ex job thrown) s
  unfolding after_handler
  after_handler-Keeps job none s h = record_success-Keeps job ex.commit s h
  after_handler-Keeps job (some message) s h = fail_job-Keeps job message s h

  after_claim-Keeps :
      (job : JobRecord) (claim : Option JobRow) (s : World R)
      → HasRow s.db.jobs job.id
      → Keeps R (Any R) (after_claim R cfg ex job claim) s
  unfolding after_claim
  after_claim-Keeps job none s h = tt
  after_claim-Keeps job (some r) s h =
      after_handler-Keeps (record job { attempts = r.attempts }) _ s h

  after_select-Keeps :
      (row : Option JobRow) (s : World R)
      → ((r : JobRow) → row ≡ some r → HasRow s.db.jobs r.id)
      → Keeps R (Any R) (after_select R cfg ex row) s
  unfolding after_select row_to_job set_claimed
  after_select-Keeps none s h = tt
  after_select-Keeps (some r) s h = λ t g i.
      let (i', g') = update-Keeps R t r.id _ (set_claimed ex.lease t.clock) (λ r. refl) i in
      (i', g', after_claim-Keeps (row_to_job r) _ _ (g' r.id (g r.id (h r refl))))

  pub process_one-Keeps : (id : Text) (s : World R) → Keeps R (Any R) (process_one R cfg ex id) s
  unfolding process_one
  process_one-Keeps id s t g i = (
    i,
    λ j x. x,
    after_select-Keeps (find id t.db.jobs) t (λ r e. rw (find-id id t.db.jobs r e, e)),
  )
