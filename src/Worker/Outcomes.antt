-- ===== src/Worker/Outcomes.antt =====
-- src/worker/index.ts: the branches of processOne, when nothing interferes.
pub mod Failures
use queue_flow.Base.{
  ℕ, ◌+◌, ap, subst, sym, ◌≡◌, ◌∙◌, refl, true, Option, none, some, ◌∷◌, Text, ===_refl, arith, leb,
  if◌then◌else◌,
}
use queue_flow.Retry.{next_delay_ms}
use queue_flow.Proc.{Proc, result, final}
use queue_flow.Types.{JobRow, JobRecord, running, retrying, succeeded, dead, row_to_job}
use queue_flow.Store.Jobs.{find, update, find-update_self, returning_hit}
use queue_flow.Store.Redis.{Redis}
use queue_flow.Store.World.{World}
use queue_flow.Worker.{
  bury_outcome, commits, WorkerConfig, Execution, Outcome, recorded_success, buried, parked,
  claimable, set_claimed, owns, set_succeeded, set_dead, set_retrying, settle, settled, bury,
  schedule, park, fail_job, record_success, after_handler, after_claim, after_select, process_one,
}

module _ (R : Redis) (cfg : WorkerConfig) (ex : Execution) (w : World R) (row : JobRow)
    (f : find row.id w.db.jobs ≡ some row) where
  abbrev pub claimed_row : JobRow
  claimed_row = record row {
    status = running;
    started_at = some w.clock;
    attempts = row.attempts + 1;
    lease_id = some ex.lease;
  }

  abbrev pub claimed_job : JobRecord
  claimed_job = row_to_job (record row { attempts = row.attempts + 1 })

  abbrev pub claimed_world : World R
  claimed_world = record w {
    db = record w.db { jobs = update row.id claimable (set_claimed ex.lease w.clock) w.db.jobs };
  }

  pub claimed_found : claimable row ≡ true → find row.id claimed_world.db.jobs ≡ some claimed_row
  unfolding set_claimed
  claimed_found c =
      find-update_self row.id claimable (set_claimed ex.lease w.clock) (λ r. refl) w.db.jobs row f c

  pub claimed_owned : owns cfg.fencing ex.lease claimed_row ≡ true
  unfolding owns
  claimed_owned = ground (arith, ===_refl ex.lease)

  -- The execution goes on as the handler's outcome decides, in the world after the claim.
  abbrev Agree : Proc (World R) Outcome → World R → Type 0
  Agree q v =
      let p = after_handler R cfg ex claimed_job (ex.handle claimed_job) in
      (result q v ≡ result p claimed_world) × (final q v ≡ final p claimed_world)

  pub enter :
      claimable row ≡ true
      → let p = after_handler R cfg ex claimed_job (ex.handle claimed_job) in
        (result (process_one R cfg ex row.id) w ≡ result p claimed_world)
        × (final (process_one R cfg ex row.id) w ≡ final p claimed_world)
  unfolding process_one row_to_job set_claimed
  enter c =
      let hit = returning_hit row.id claimable (set_claimed ex.lease w.clock) w.db.jobs row f c in
      subst (λ o. Agree (after_select R cfg ex o) w) (sym f)
        (subst (λ o. Agree (after_claim R cfg ex (row_to_job row) o) claimed_world) (sym hit)
          (refl, refl))

  -- The transaction commits: the row is still leased, so it is marked and the effect goes with it.
  committed :
      (v : World R) (r : JobRow)
      → find row.id v.db.jobs ≡ some r
      → owns cfg.fencing ex.lease r ≡ true
      → (settled R cfg ex.lease row.id v ≡ true)
        × (find row.id (settle R cfg ex.lease row.id v).db.jobs ≡ some (set_succeeded v.clock r))
        × ((settle R cfg ex.lease row.id v).db.effects
            ≡ record { job_id = row.id; worker_id = cfg.worker_id; ran_at = v.clock }
              ∷ v.db.effects)
        × ((settle R cfg ex.lease row.id v).lists ≡ v.lists)
        × ((settle R cfg ex.lease row.id v).delayed ≡ v.delayed)
  unfolding settle settled set_succeeded
  committed v r g o =
      let hit =
        returning_hit row.id (owns cfg.fencing ex.lease) (set_succeeded v.clock) v.db.jobs r g o in
      rw (hit, settled, settle)
        (
          refl,
          find-update_self row.id (owns cfg.fencing ex.lease) (set_succeeded v.clock) (λ x. refl)
              v.db.jobs r g o,
          refl,
          refl,
          refl,
        )

  abbrev pub Succeeded : Outcome → World R → Type 0
  Succeeded o v =
      (o ≡ recorded_success)
      × (find row.id v.db.jobs
          ≡ some (record claimed_row { status = succeeded; completed_at = some w.clock }))
      × (v.db.effects
          ≡ record { job_id = row.id; worker_id = cfg.worker_id; ran_at = w.clock } ∷ w.db.effects)
      × (v.lists ≡ w.lists)
      × (v.delayed ≡ w.delayed)

  abbrev Succeeds : Proc (World R) Outcome → Type 0
  Succeeds q = Succeeded (result q claimed_world) (final q claimed_world)

  -- Uninterrupted, on a claimable row, with a handler that returns and a transaction that
  -- commits, an execution records success: the row is claimed, one attempt is counted, its
  -- status is succeeded, exactly one effect with the worker's id is added, and the lists and
  -- the delayed set are as they were.
  pub process_one-succeeds :
      claimable row ≡ true
      → ex.handle claimed_job ≡ none
      → ex.commit ≡ commits
      → Succeeded (result (process_one R cfg ex row.id) w) (final (process_one R cfg ex row.id) w)
  unfolding after_handler record_success set_succeeded row_to_job
  process_one-succeeds c h e =
      let (er, ef) = enter c in
      let (k, fd, eff, lists, delayed) =
        committed claimed_world claimed_row (claimed_found c) claimed_owned in
      let (a, b, d, same, still) =
        subst (λ o. Succeeds (after_handler R cfg ex claimed_job o)) (sym h)
          (subst (λ o. Succeeds (record_success R cfg ex claimed_job o)) (sym e)
            (rw (k, settled) refl, fd, eff, lists, delayed)) in
      (
        er ∙ a,
        ap (λ v. find row.id v.db.jobs) ef ∙ b,
        ap (λ v. v.db.effects) ef ∙ d,
        ap (λ v. v.lists) ef ∙ same,
        ap (λ v. v.delayed) ef ∙ still,
      )
