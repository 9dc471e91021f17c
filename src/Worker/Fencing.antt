-- ===== src/Worker/Fencing.antt =====
-- What an execution may write to the database, whatever other processes do between its commands.
use queue_flow.Base.{
  ap, ◌∙◌, subst, ℕ, ◌≡◌, ◌⊎◌, refl, inl, inr, Bool, true, Option, none, some, List, ◌∷◌, Text,
  ◌===◌, arith, Option-cases, ===_iff, Bool-cases, leb,
}
use queue_flow.Proc.{Proc, Always}
use queue_flow.Types.{JobRow, JobRecord, succeeded, row_to_job}
use queue_flow.Store.Jobs.{
  find, update, returning, find-id, find-returning, find-update_other, update-same, returning-some,
  Effect,
}
use queue_flow.Store.Redis.{Redis}
use queue_flow.Store.World.{World}
use queue_flow.Worker.{
  Commit, commits, rolls_back, reply_lost, WorkerConfig, Execution, claimable, set_claimed, owns,
  set_succeeded, set_dead, set_retrying, settle, bury, schedule, park, fail_job, record_success,
  after_handler, after_claim, after_select, process_one,
}

-- A write to the row of `id`, made while the row was up for claiming or carried this lease, after
-- which it carries this lease. Other rows stay, and an effect is added only with a success.
pub record OwnWrite (lease id : Text) (jobs jobs' : List JobRow) : Type 0 where
  pub before : JobRow
  pub after : JobRow
  pub found : find id jobs ≡ some before
  pub left : find id jobs' ≡ some after
  pub held : (claimable before ≡ true) ⊎ (before.lease_id ≡ some lease)
  pub kept : after.lease_id ≡ some lease
  pub others : (j : Text) → (id ≡ j) ⊎ (find j jobs' ≡ find j jobs)

update-OwnWrite :
    (lease id : Text) (guard : JobRow → Bool) (set : JobRow → JobRow) (jobs : List JobRow)
    → ((r : JobRow) → (set r).id ≡ r.id)
    → ((r : JobRow) → guard r ≡ true → (claimable r ≡ true) ⊎ (r.lease_id ≡ some lease))
    → ((r : JobRow) → guard r ≡ true → (set r).lease_id ≡ some lease)
    → (r' : JobRow) → returning id guard set jobs ≡ some r'
    → OwnWrite lease id jobs (update id guard set jobs)
update-OwnWrite lease id guard set jobs keep hold own r' e =
    let (r, f, g, s) = returning-some id guard set jobs r' e in
    record {
      before = r;
      after = r';
      found = f;
      left = find-returning id guard set keep jobs r' e;
      held = hold r g;
      kept = rw s (own r g);
      others = λ j. elim (Bool-cases (id === j)) [
        | inl e ↦ inl ((===_iff id j).0 e)
        | inr ne ↦ inr (find-update_other id guard set keep j jobs ne)
      ];
    }

-- What a command of the execution does to the database: nothing; or a write to its own row, with
-- no effect row added unless the job has thereby succeeded.
abbrev pub Fenced : (R : Redis) → Text → Text → World R → World R → Type 0
Fenced R lease id w w' =
    (w'.db ≡ w.db)
    ⊎ (OwnWrite lease id w.db.jobs w'.db.jobs
        × ((w'.db.effects ≡ w.db.effects)
            ⊎ ((x : Effect) × (y : JobRow) × (w'.db.effects ≡ x ∷ w.db.effects)
                × (x.job_id ≡ id)
                × (find id w'.db.jobs ≡ some y)
                × (y.status ≡ succeeded))))

statement-Fenced :
    (R : Redis) (lease id : Text) (guard : JobRow → Bool) (set : JobRow → JobRow) (w : World R)
    → ((r : JobRow) → (set r).id ≡ r.id)
    → ((r : JobRow) → guard r ≡ true → (claimable r ≡ true) ⊎ (r.lease_id ≡ some lease))
    → ((r : JobRow) → guard r ≡ true → (set r).lease_id ≡ some lease)
    → Fenced R lease id w (record w { db = record w.db { jobs = update id guard set w.db.jobs } })
statement-Fenced R lease id guard set w keep hold own =
    elim (Option-cases (returning id guard set w.db.jobs)) [
      | inl e ↦ inl (ap (λ js. record w.db { jobs = js }) (update-same id guard set w.db.jobs e))
      | inr (r', e) ↦
          inr (update-OwnWrite lease id guard set w.db.jobs keep hold own r' e, inl refl)
    ]

claim-Fenced :
    (R : Redis) (lease id : Text) (w : World R)
    → Fenced R lease id w (record w {
      db = record w.db { jobs = update id claimable (set_claimed lease w.clock) w.db.jobs };
    })
unfolding set_claimed
claim-Fenced R lease id w =
    statement-Fenced R lease id claimable (set_claimed lease w.clock) w (λ r. refl) (λ r g. inl g)
      (λ r g. refl)

module _ (R : Redis) (cfg : WorkerConfig) (ex : Execution) (on : cfg.fencing ≡ true) where
  owns_lease : (r : JobRow) → owns cfg.fencing ex.lease r ≡ true → r.lease_id ≡ some ex.lease
  unfolding owns
  owns_lease r e = elim (Option-cases r.lease_id) [
    | inl n ↦ absurd (ground (arith, n, on))
    | inr (l, f) ↦ ground (arith, f, on, ===_iff l ex.lease)
  ]

  owned-Fenced :
      (id : Text) (set : JobRow → JobRow) (w : World R)
      → ((r : JobRow) → (set r).id ≡ r.id)
      → ((r : JobRow) → (set r).lease_id ≡ r.lease_id)
      → Fenced R ex.lease id w (record w {
        db = record w.db { jobs = update id (owns cfg.fencing ex.lease) set w.db.jobs };
      })
  owned-Fenced id set w keep same =
      statement-Fenced R ex.lease id (owns cfg.fencing ex.lease) set w keep
        (λ r g. inr (owns_lease r g)) (λ r g. same r ∙ owns_lease r g)

  success-status :
      (id : Text) (now : ℕ) (jobs : List JobRow) (r' : JobRow)
      → returning id (owns cfg.fencing ex.lease) (set_succeeded now) jobs ≡ some r'
      → r'.status ≡ succeeded
  unfolding set_succeeded
  success-status id now jobs r' e =
      let (r, f, g, s) =
        returning-some id (owns cfg.fencing ex.lease) (set_succeeded now) jobs r' e in
      rw s refl

  settle-Fenced : (id : Text) (w : World R) → Fenced R ex.lease id w (settle R cfg ex.lease id w)
  unfolding settle set_succeeded
  settle-Fenced id w =
      let guard = owns cfg.fencing ex.lease in
      elim (Option-cases (returning id guard (set_succeeded w.clock) w.db.jobs)) [
        | inl e ↦ rw (e, settle) (inl refl)
        | inr (r', e) ↦
            rw (e, settle)
              (inr (
                update-OwnWrite ex.lease id guard (set_succeeded w.clock) w.db.jobs (λ r. refl)
                    (λ r g. inr (owns_lease r g)) owns_lease r' e,
                inr (
                  _,
                  r',
                  refl,
                  refl,
                  find-returning id guard (set_succeeded w.clock) (λ r. refl) w.db.jobs r' e,
                  success-status id w.clock w.db.jobs r' e,
                ),
              ))
      ]

  abbrev IsFenced : {A : Type 0} → Text → Proc (World R) A → Type 0
  IsFenced id p = Always (Fenced R ex.lease id) p

  bury-Fenced : (job : JobRecord) (message : Text) → IsFenced job.id (bury R cfg ex job message)
  unfolding bury set_dead
  bury-Fenced job message w =
      (owned-Fenced job.id (set_dead message w.clock) w (λ r. refl) (λ r. refl), tt)

  schedule-Fenced :
      (id : Text) (run_at delay : ℕ) (row : Option JobRow)
      → IsFenced id (schedule R id run_at delay row)
  unfolding schedule
  schedule-Fenced id run_at delay none = tt
  schedule-Fenced id run_at delay (some r) = λ w. (inl refl, tt)

  park-Fenced : (job : JobRecord) (message : Text) → IsFenced job.id (park R cfg ex job message)
  unfolding park set_retrying
  park-Fenced job message w = (
    inl refl,
    λ v. (
      owned-Fenced job.id (set_retrying message _ v.clock) v (λ r. refl) (λ r. refl),
      schedule-Fenced job.id _ _ _,
    ),
  )

  fail_job-Fenced :
      (job : JobRecord) (message : Text) → IsFenced job.id (fail_job R cfg ex job message)
  unfolding fail_job
  fail_job-Fenced job message = elim (Bool-cases (leb job.max_attempts job.attempts)) [
    | inl e ↦ rw e (bury-Fenced job message)
    | inr e ↦ rw e (park-Fenced job message)
  ]

  record_success-Fenced :
      (job : JobRecord) (end : Commit) → IsFenced job.id (record_success R cfg ex job end)
  unfolding record_success
  record_success-Fenced job commits = λ w. (settle-Fenced job.id w, tt)
  record_success-Fenced job (rolls_back message) = fail_job-Fenced job message
  record_success-Fenced job (reply_lost message) =
      λ w. (settle-Fenced job.id w, fail_job-Fenced job message)

  after_handler-Fenced :
      (job : JobRecord) (thrown : Option Text) → IsFenced job.id (after_handler R cfg ex job thrown)
  unfolding after_handler
  after_handler-Fenced job none = record_success-Fenced job ex.commit
  after_handler-Fenced job (some message) = fail_job-Fenced job message

  after_claim-Fenced :
      (job : JobRecord) (claim : Option JobRow) → IsFenced job.id (after_claim R cfg ex job claim)
  unfolding after_claim
  after_claim-Fenced job none = tt
  after_claim-Fenced job (some r) = after_handler-Fenced (record job { attempts = r.attempts }) _

  after_select-Fenced :
      (id : Text) (row : Option JobRow)
      → ((r : JobRow) → row ≡ some r → r.id ≡ id)
      → IsFenced id (after_select R cfg ex row)
  unfolding after_select row_to_job
  after_select-Fenced id none h = tt
  after_select-Fenced id (some r) h =
      subst (λ i. IsFenced i (after_select R cfg ex (some r))) (h r refl)
        (λ w. (claim-Fenced R ex.lease r.id w, after_claim-Fenced (row_to_job r) _))

  -- With fencing on, each command of an execution, in whatever state it is met, leaves the
  -- database alone or writes the row of its own job only: a row that is claimable or holds the
  -- lease of this execution, and which holds that lease afterwards. An effect is added only by
  -- a command that leaves the row succeeded, and one at a time.
  pub process_one-Fenced : (id : Text) → Always (Fenced R ex.lease id) (process_one R cfg ex id)
  unfolding process_one
  process_one-Fenced id w =
      (inl refl, after_select-Fenced id (find id w.db.jobs) (λ r e. find-id id w.db.jobs r e))
