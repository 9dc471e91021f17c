-- ===== src/Worker/Outcomes/Failures.antt =====
-- src/worker/index.ts: the catch block of processOne, when nothing interferes.
use queue_flow.Base.{
  ℕ, ◌+◌, ap, subst, sym, ◌≡◌, ◌∙◌, refl, true, false, Option, none, some, Text, leb, if◌then◌else◌,
}
use queue_flow.Retry.{next_delay_ms}
use queue_flow.Proc.{Proc, result, final}
use queue_flow.Types.{JobRow, JobRecord, retrying, dead, row_to_job}
use queue_flow.Store.Jobs.{find, update, find-update_self, returning_hit}
use queue_flow.Store.Redis.{Redis}
use queue_flow.Store.World.{World}
use queue_flow.Worker.{
  bury_outcome, Commit, commits, rolls_back, reply_lost, WorkerConfig, Execution, Outcome, buried,
  parked, claimable, owns, set_dead, set_retrying, bury, schedule, park, fail_job, record_success,
  after_handler, process_one,
}
use queue_flow.Worker.Outcomes.{
  claimed_row, claimed_job, claimed_world, claimed_found, claimed_owned, enter,
}

-- The error of a handler, or that of a transaction that is rolled back.
abbrev pub first_error : Option Text → Commit → Option Text
first_error (some m) end = some m
first_error none (rolls_back m) = some m
first_error none _ = none

some-inj : {a b : Text} → some a ≡ some b → a ≡ b
some-inj e = cc

module _ (R : Redis) (cfg : WorkerConfig) (ex : Execution) (w : World R) (row : JobRow)
    (f : find row.id w.db.jobs ≡ some row) where
  -- The row, the job and the world as the claim leaves them.
  abbrev pub taken_row : JobRow
  taken_row = claimed_row R cfg ex w row f

  abbrev pub taken_job : JobRecord
  taken_job = claimed_job R cfg ex w row f

  abbrev taken_world : World R
  taken_world = claimed_world R cfg ex w row f

  -- What the `catch` block is given: the error of the handler, or that of the transaction when it is rolled back.
  abbrev pub failure : Option Text
  failure = first_error (ex.handle taken_job) ex.commit

  abbrev Ends : Proc (World R) Outcome → Proc (World R) Outcome → Type 0
  Ends p q =
      (result p taken_world ≡ result q taken_world) × (final p taken_world ≡ final q taken_world)

  after_handler-failure :
      (m : Text)
      → (a : Option Text) (b : Commit) → ex.handle taken_job ≡ a
      → ex.commit ≡ b
      → first_error a b ≡ some m
      → Ends
          (after_handler R cfg ex taken_job (ex.handle taken_job))
          (fail_job R cfg ex taken_job m)
  unfolding after_handler record_success
  after_handler-failure m (some k) b h e l =
      subst (λ o. Ends (after_handler R cfg ex taken_job o) (fail_job R cfg ex taken_job m)) (sym h)
        (subst (λ o. Ends (fail_job R cfg ex taken_job o) (fail_job R cfg ex taken_job m))
          (sym (some-inj l)) (refl, refl))
  after_handler-failure m none (rolls_back k) h e l =
      subst (λ o. Ends (after_handler R cfg ex taken_job o) (fail_job R cfg ex taken_job m)) (sym h)
        (subst (λ o. Ends (record_success R cfg ex taken_job o) (fail_job R cfg ex taken_job m))
          (sym e)
          (subst (λ o. Ends (fail_job R cfg ex taken_job o) (fail_job R cfg ex taken_job m))
            (sym (some-inj l)) (refl, refl)))
  after_handler-failure m none commits h e l = cc
  after_handler-failure m none (reply_lost k) h e l = cc

  abbrev Buried : Text → Outcome → World R → Type 0
  Buried m o v =
      (o ≡ buried)
      × (find row.id v.db.jobs
          ≡ some (record taken_row {
            status = dead;
            last_error = some m;
            completed_at = some w.clock;
            next_run_at = none;
          }))
      × (v.db.effects ≡ w.db.effects)
      × (v.delayed ≡ w.delayed)

  abbrev Buries : Text → Proc (World R) Outcome → Type 0
  Buries m q = Buried m (result q taken_world) (final q taken_world)

  fail_job-Buries :
      (m : Text)
      → claimable row ≡ true
      → leb row.max_attempts (row.attempts + 1) ≡ true
      → Buries m (fail_job R cfg ex taken_job m)
  unfolding fail_job bury set_dead row_to_job
  fail_job-Buries m c full =
      let g = owns cfg.fencing ex.lease in
      let set = set_dead m w.clock in
      let hit =
        returning_hit row.id g set taken_world.db.jobs taken_row (claimed_found R cfg ex w row f c)
          (claimed_owned R cfg ex w row f) in
      subst (λ b. Buries m (if b then bury R cfg ex taken_job m else park R cfg ex taken_job m))
        (sym full)
        (
          ap (bury_outcome R) hit,
          find-update_self row.id g set (λ x. refl) taken_world.db.jobs taken_row
              (claimed_found R cfg ex w row f c) (claimed_owned R cfg ex w row f),
          refl,
          refl,
        )

  -- Uninterrupted, on a claimable row, when the handler throws or the transaction is rolled
  -- back on an error, and the attempt just counted reaches the maximum: the row is dead with
  -- the error, completed and without a next run, and neither an effect nor a retry is added.
  pub process_one-buries :
      (m : Text)
      → claimable row ≡ true
      → failure ≡ some m
      → leb row.max_attempts (row.attempts + 1) ≡ true
      → Buried m (result (process_one R cfg ex row.id) w) (final (process_one R cfg ex row.id) w)
  process_one-buries m c l full =
      let (er, ef) = enter R cfg ex w row f c in
      let (fr, ff) = after_handler-failure m (ex.handle taken_job) ex.commit refl refl l in
      subst (λ o. Buried m o (final (process_one R cfg ex row.id) w)) (sym (er ∙ fr))
        (subst (Buried m (result (fail_job R cfg ex taken_job m) taken_world)) (sym (ef ∙ ff))
          (fail_job-Buries m c full))

  abbrev Parked : Text → Outcome → World R → Type 0
  Parked m o v =
      let delay = next_delay_ms cfg.retry (row.attempts + 1) ex.random in
      (o ≡ parked delay)
      × (find row.id v.db.jobs
          ≡ some (record taken_row {
            status = retrying;
            last_error = some m;
            next_run_at = some (w.clock + delay);
          }))
      × (v.db.effects ≡ w.db.effects)
      × (v.delayed ≡ R.zadd w.delayed (w.clock + delay) row.id)

  abbrev Parks : Text → Proc (World R) Outcome → Type 0
  Parks m q = Parked m (result q taken_world) (final q taken_world)

  parked_world : Text → ℕ → World R
  parked_world m at = record taken_world {
    db = record taken_world.db {
      jobs =
          update row.id (owns cfg.fencing ex.lease) (set_retrying m at w.clock) taken_world.db.jobs;
    };
  }

  fail_job-Parks :
      (m : Text)
      → claimable row ≡ true
      → leb row.max_attempts (row.attempts + 1) ≡ false
      → Parks m (fail_job R cfg ex taken_job m)
  unfolding fail_job park schedule set_retrying row_to_job parked_world
  fail_job-Parks m c left =
      let delay = next_delay_ms cfg.retry (row.attempts + 1) ex.random in
      let at = w.clock + delay in
      let g = owns cfg.fencing ex.lease in
      let set = set_retrying m at w.clock in
      let hit =
        returning_hit row.id g set taken_world.db.jobs taken_row (claimed_found R cfg ex w row f c)
          (claimed_owned R cfg ex w row f) in
      let v = parked_world m at in
      subst (λ b. Parks m (if b then bury R cfg ex taken_job m else park R cfg ex taken_job m))
        (sym left)
        (subst
          (λ o.
            Parked m (result (schedule R row.id at delay o) v)
              (final (schedule R row.id at delay o) v))
          (sym hit)
          (
            refl,
            find-update_self row.id g set (λ x. refl) taken_world.db.jobs taken_row
                (claimed_found R cfg ex w row f c) (claimed_owned R cfg ex w row f),
            refl,
            refl,
          ))

  -- Uninterrupted, on a claimable row, when the handler throws or the transaction is rolled
  -- back on an error, and the attempt just counted is below the maximum: the row is retrying
  -- with the error and the time of the next run, that same time is the score of the id in the
  -- delayed set, and no effect is added.
  pub process_one-parks :
      (m : Text)
      → claimable row ≡ true
      → failure ≡ some m
      → leb row.max_attempts (row.attempts + 1) ≡ false
      → Parked m (result (process_one R cfg ex row.id) w) (final (process_one R cfg ex row.id) w)
  process_one-parks m c l left =
      let (er, ef) = enter R cfg ex w row f c in
      let (fr, ff) = after_handler-failure m (ex.handle taken_job) ex.commit refl refl l in
      subst (λ o. Parked m o (final (process_one R cfg ex row.id) w)) (sym (er ∙ fr))
        (subst (Parked m (result (fail_job R cfg ex taken_job m) taken_world)) (sym (ef ∙ ff))
          (fail_job-Parks m c left))
