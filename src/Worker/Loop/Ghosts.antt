-- ===== src/Worker/Loop/Ghosts.antt =====
-- src/worker/index.ts: the loop and the recovery, command by command, and the ids on the queues.
use queue_flow.Base.{
  ℕ, zero, suc, ◌+◌, ◌*◌, ◌∙◌, refl, inl, inr, Bool, true, false, ◌&&◌, Option, none, some, List,
  [], ◌∷◌, Text, ltb, Bool-cases, Option-cases,
}
use queue_flow.Keys.{pending, processing, alive}
use queue_flow.Keys.Parse.{processing-ne-pending, pending-ne-processing}
use queue_flow.Types.{is_uuid}
use queue_flow.Store.Jobs.{update_any}
use queue_flow.Store.Redis.{Redis}
use queue_flow.Proc.{◌>>=◌}
use queue_flow.Store.World.{World, key_exists}
use queue_flow.Store.Views.{HasRow, row-update_any}
use queue_flow.Store.Known.{
  Keeps, Any, Keeps-bind, lrem_first-Known, lmove_left-Known, lmove_right-Known, jobs-Known,
}
use queue_flow.Worker.{WorkerConfig, Execution, process_one}
use queue_flow.Worker.Ghosts.{process_one-Keeps}
use queue_flow.Worker.Loop.{
  execute, taken, serve_next, wait_gone, wait_if, move_all, restore, recover_if,
  recover_own_processing, is_running, set_stranded,
}

module _ (R : Redis) (cfg : WorkerConfig) where
  execute-Keeps :
      (ex : Execution) (id : Text) (s : World R) → Keeps R (Any R) (execute R cfg ex id) s
  unfolding execute
  execute-Keeps ex id s =
      Keeps-bind R (process_one R cfg ex id) _ s (process_one-Keeps R cfg ex id s)
        (λ o t t' g i. (lrem_first-Known R t' (processing cfg.worker_id) id i, λ j x. x, tt))

  taken-Keeps :
      (ex : Execution) (entry : Option Text) (s : World R)
      → Keeps R (Any R) (taken R cfg ex entry) s
  unfolding taken
  taken-Keeps ex none s = tt
  taken-Keeps ex (some id) s = elim (Bool-cases (is_uuid id)) [
    | inl e ↦ rw e (execute-Keeps ex id s)
    | inr e ↦ rw e (λ t g i. (lrem_first-Known R t (processing cfg.worker_id) id i, λ j x. x, tt))
  ]

  pub serve_next-Keeps : (ex : Execution) (s : World R) → Keeps R (Any R) (serve_next R cfg ex) s
  unfolding serve_next
  serve_next-Keeps ex s t g i = (
    lmove_left-Known R t pending (processing cfg.worker_id) (pending-ne-processing cfg.worker_id) i,
    λ j x. x,
    taken-Keeps ex _ _,
  )

  wait_gone-Keeps :
      (fuel deadline : ℕ) (key : Text) (s : World R)
      → Keeps R (Any R) (wait_gone R fuel deadline key) s
  unfolding wait_gone
  wait_gone-Keeps zero deadline key s = tt
  wait_gone-Keeps (suc fuel) deadline key s = λ t g i. (
    i,
    λ j x. x,
    λ t' g' i'. (
      i',
      λ j x. x,
      elim (Bool-cases (ltb t.clock deadline && R.exists t'.beats t'.clock key)) [
        | inl e ↦ rw e (wait_gone-Keeps fuel deadline key t')
        | inr e ↦ rw e tt
      ],
    ),
  )

  wait_if-Keeps :
      (fuel deadline : ℕ) (key : Text) (present : Bool) (s : World R)
      → Keeps R (Any R) (wait_if R fuel deadline key present) s
  unfolding wait_if
  wait_if-Keeps fuel deadline key true s = wait_gone-Keeps fuel deadline key s
  wait_if-Keeps fuel deadline key false s = tt

  move_all-Keeps :
      (fuel moved : ℕ) (s : World R)
      → Keeps R (Any R) (move_all R fuel (processing cfg.worker_id) moved) s
  unfolding move_all
  move_all-Keeps zero moved s = tt
  move_all-Keeps (suc fuel) moved s = λ t g i. (
    lmove_right-Known R t (processing cfg.worker_id) pending (processing-ne-pending cfg.worker_id)
        i,
    λ j x. x,
    elim (Option-cases (R.lindex_last t.lists (processing cfg.worker_id))) [
      | inl e ↦ rw e tt
      | inr (x, e) ↦ rw e (move_all-Keeps fuel (moved + 1) _)
    ],
  )

  restore-Keeps :
      (fuel : ℕ) (ids : List Text) (s : World R)
      → Keeps R (Any R) (restore R fuel (processing cfg.worker_id) ids) s
  unfolding restore is_running set_stranded
  restore-Keeps fuel [] s = tt
  restore-Keeps fuel (id ∷ ids) s =
      λ t g i. (jobs-Known R t _ (keep t) i, keep t, move_all-Keeps fuel 0 _)
    where
      keep :
          (t : World R) (j : Text)
          → HasRow t.db.jobs j
          → HasRow (update_any (id ∷ ids) is_running set_stranded t.db.jobs) j
      keep t j h = row-update_any (id ∷ ids) is_running set_stranded t.db.jobs j (λ r. refl) ∙ h

  recover_if-Keeps :
      (fuel : ℕ) (present : Bool) (s : World R) → Keeps R (Any R) (recover_if R fuel cfg present) s
  unfolding recover_if
  recover_if-Keeps fuel true s = tt
  recover_if-Keeps fuel false s = λ t g i. (i, λ j x. x, restore-Keeps fuel _ t)

  pub recover-Keeps :
      (fuel ttl_s : ℕ) (s : World R) → Keeps R (Any R) (recover_own_processing R fuel ttl_s cfg) s
  unfolding recover_own_processing
  recover-Keeps fuel ttl_s s t g i = (
    i,
    λ j x. x,
    λ u gu iu. (
      iu,
      λ j x. x,
      let deadline = t.clock + (ttl_s * 1000 + 1000) in
          let present = R.exists u.beats u.clock (alive cfg.worker_id) in
          Keeps-bind R (wait_if R fuel deadline (alive cfg.worker_id) present)
            (λ _. key_exists R (alive cfg.worker_id) >>= recover_if R fuel cfg) u
            (wait_if-Keeps fuel deadline (alive cfg.worker_id) present u)
            (λ _ v v' g' i'. (i', λ j x. x, recover_if-Keeps fuel _ v')),
    ),
  )
