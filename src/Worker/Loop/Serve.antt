-- ===== src/Worker/Loop/Serve.antt =====
-- src/worker/index.ts: one turn of the main loop from BLMOVE to LREM, executed without interference.
use queue_flow.Base.{
  ◌+◌, ◌≡◌, ◌∙◌, refl, sym, ap, subst, true, none, some, List, ◌∷◌, Text, arith, ===_refl,
  if◌then◌else◌, last?, drop_last,
}
use queue_flow.Keys.{pending, processing}
use queue_flow.Keys.Parse.{pending-ne-processing, processing-ne-pending}
use queue_flow.Proc.{Proc, result, final, result-bind, final-bind, done, ◌>>◌}
use queue_flow.Types.{JobRow, succeeded, is_uuid}
use queue_flow.Store.Jobs.{find}
use queue_flow.Store.Redis.{Redis, remove_first}
use queue_flow.Store.World.{World, lrem_first}
use queue_flow.Worker.{
  commits, WorkerConfig, Execution, Outcome, recorded_success, claimable, process_one,
}
use queue_flow.Worker.Outcomes.{claimed_job, process_one-succeeds}
use queue_flow.Worker.Loop.{Turn, executed, execute, taken, serve_next}

remove_first-head : (x : Text) (xs : List Text) → remove_first x (x ∷ xs) ≡ xs
unfolding remove_first
remove_first-head x xs = ground (arith, ===_refl x)

module _ (R : Redis) (cfg : WorkerConfig) (ex : Execution) (w : World R) (row : JobRow)
    (f : find row.id w.db.jobs ≡ some row) where
  abbrev own : Text
  own = processing cfg.worker_id

  -- After BLMOVE.
  abbrev moved_world : World R
  moved_world = record w { lists = R.lmove_left w.lists pending own }

  -- What the turn leaves behind.
  abbrev pub Served : Turn → World R → Type 0
  Served o v =
      (o ≡ executed recorded_success)
      × (find row.id v.db.jobs
          ≡ some (record row {
            status = succeeded;
            started_at = some w.clock;
            attempts = row.attempts + 1;
            lease_id = some ex.lease;
            completed_at = some w.clock;
          }))
      × (v.db.effects
          ≡ record { job_id = row.id; worker_id = cfg.worker_id; ran_at = w.clock } ∷ w.db.effects)
      × (R.lrange v.lists pending ≡ drop_last (R.lrange w.lists pending))
      × (R.lrange v.lists own ≡ R.lrange w.lists own)
      × (v.delayed ≡ w.delayed)

  abbrev Serves : Proc (World R) Turn → Type 0
  Serves p = Served (result p moved_world) (final p moved_world)

  pending_after :
      last? (R.lrange w.lists pending) ≡ some row.id
      → R.lrange (R.lrem_first (R.lmove_left w.lists pending own) own row.id) pending
        ≡ drop_last (R.lrange w.lists pending)
  pending_after l =
      let apart = pending-ne-processing cfg.worker_id in
      rw
        (
          R.lrange-lrem_first (R.lmove_left w.lists pending own) own row.id pending,
          processing-ne-pending cfg.worker_id,
          R.lrange-lmove_left w.lists pending own pending apart,
          l,
          processing-ne-pending cfg.worker_id,
          ===_refl pending,
        )
        refl

  own_after :
      last? (R.lrange w.lists pending) ≡ some row.id
      → R.lrange (R.lrem_first (R.lmove_left w.lists pending own) own row.id) own
        ≡ R.lrange w.lists own
  own_after l =
      rw
        (
          R.lrange-lrem_first (R.lmove_left w.lists pending own) own row.id own,
          ===_refl own,
          R.lrange-lmove_left w.lists pending own own (pending-ne-processing cfg.worker_id),
          l,
          ===_refl own,
          remove_first-head row.id (R.lrange w.lists own),
        )
        refl

  execute-Serves :
      claimable row ≡ true
      → ex.handle (claimed_job R cfg ex moved_world row f) ≡ none
      → ex.commit ≡ commits
      → last? (R.lrange w.lists pending) ≡ some row.id
      → Serves (execute R cfg ex row.id)
  unfolding execute
  execute-Serves c h e l =
      let p = process_one R cfg ex row.id in
      let next = λ (o : Outcome). lrem_first R own row.id >> done (executed o) in
      let (a, b, d, same, still) = process_one-succeeds R cfg ex moved_world row f c h e in
      let ended = final-bind p next moved_world in
      let removed = λ (key : Text).
        ap (λ u. R.lrange u.lists key) ended
        ∙ ap (λ k. R.lrange (R.lrem_first k own row.id) key) same in
      (
        result-bind p next moved_world ∙ ap executed a,
        ap (λ u. find row.id u.db.jobs) ended ∙ b,
        ap (λ u. u.db.effects) ended ∙ d,
        removed pending ∙ pending_after l,
        removed own ∙ own_after l,
        ap (λ u. u.delayed) ended ∙ still,
      )

  pub serve_next-serves :
      claimable row ≡ true
      → ex.handle (claimed_job R cfg ex moved_world row f) ≡ none
      → ex.commit ≡ commits
      → is_uuid row.id ≡ true
      → last? (R.lrange w.lists pending) ≡ some row.id
      → Served (result (serve_next R cfg ex) w) (final (serve_next R cfg ex) w)
  unfolding serve_next taken
  serve_next-serves c h e u l =
      subst (λ o. Serves (taken R cfg ex o)) (sym (R.lindex_last-lrange w.lists pending ∙ l))
        (subst
          (λ b.
            Serves (
              if b
              then execute R cfg ex row.id
              else lrem_first R own row.id >> done Turn.discarded))
          (sym u) (execute-Serves c h e l))
