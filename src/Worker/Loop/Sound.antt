-- ===== src/Worker/Loop/Sound.antt =====
-- src/worker/index.ts: the loop and the recovery, command by command, and the columns of the rows.
use queue_flow.Base.{
  ℕ, zero, suc, ◌+◌, ◌*◌, inl, inr, Bool, true, false, ◌&&◌, Option, none, some, List, [], ◌∷◌,
  Text, ltb, Bool-cases, Option-cases,
}
use queue_flow.Keys.{processing, alive}
use queue_flow.Types.{is_uuid}
use queue_flow.Store.Redis.{Redis}
use queue_flow.Proc.{◌>>=◌}
use queue_flow.Store.World.{key_exists}
use queue_flow.Store.Rows.{IsSound, All-update_any, KeepsRows, KeepsRows-bind}
use queue_flow.Worker.{WorkerConfig, Execution, process_one}
use queue_flow.Worker.Sound.{process_one-Sound}
use queue_flow.Worker.Loop.{
  execute, taken, serve_next, wait_gone, wait_if, move_all, restore, recover_if,
  recover_own_processing, is_running, set_stranded,
}

module _ (R : Redis) (cfg : WorkerConfig) where
  taken-Sound : (ex : Execution) (entry : Option Text) → KeepsRows R (taken R cfg ex entry)
  unfolding taken execute
  taken-Sound ex none = tt
  taken-Sound ex (some id) = elim (Bool-cases (is_uuid id)) [
    | inl e ↦ rw e (
        KeepsRows-bind R (process_one R cfg ex id) _ (process_one-Sound R cfg ex id)
          (λ o t. (λ i. i, tt)))
    | inr e ↦ rw e (λ t. (λ i. i, tt))
  ]

  pub serve_next-Sound : (ex : Execution) → KeepsRows R (serve_next R cfg ex)
  unfolding serve_next
  serve_next-Sound ex t = (λ i. i, taken-Sound ex _)

  wait_gone-Sound : (fuel deadline : ℕ) (key : Text) → KeepsRows R (wait_gone R fuel deadline key)
  unfolding wait_gone
  wait_gone-Sound zero deadline key = tt
  wait_gone-Sound (suc fuel) deadline key = λ t. (
    λ i. i,
    λ u. (
      λ i. i,
      elim (Bool-cases (ltb t.clock deadline && R.exists u.beats u.clock key)) [
        | inl e ↦ rw e (wait_gone-Sound fuel deadline key)
        | inr e ↦ rw e tt
      ],
    ),
  )

  wait_if-Sound :
      (fuel deadline : ℕ) (key : Text) (present : Bool)
      → KeepsRows R (wait_if R fuel deadline key present)
  unfolding wait_if
  wait_if-Sound fuel deadline key true = wait_gone-Sound fuel deadline key
  wait_if-Sound fuel deadline key false = tt

  move_all-Sound : (fuel moved : ℕ) → KeepsRows R (move_all R fuel (processing cfg.worker_id) moved)
  unfolding move_all
  move_all-Sound zero moved = tt
  move_all-Sound (suc fuel) moved = λ t. (
    λ i. i,
    elim (Option-cases (R.lindex_last t.lists (processing cfg.worker_id))) [
      | inl e ↦ rw e tt
      | inr (x, e) ↦ rw e (move_all-Sound fuel (moved + 1))
    ],
  )

  restore-Sound :
      (fuel : ℕ) (ids : List Text) → KeepsRows R (restore R fuel (processing cfg.worker_id) ids)
  unfolding restore is_running set_stranded
  restore-Sound fuel [] = tt
  restore-Sound fuel (id ∷ ids) = λ t. (
    All-update_any (IsSound t.db.effects) (id ∷ ids) is_running set_stranded t.db.jobs (λ r. tt),
    move_all-Sound fuel 0,
  )

  recover_if-Sound : (fuel : ℕ) (present : Bool) → KeepsRows R (recover_if R fuel cfg present)
  unfolding recover_if
  recover_if-Sound fuel true = tt
  recover_if-Sound fuel false = λ t. (λ i. i, restore-Sound fuel _)

  pub recover-Sound : (fuel ttl_s : ℕ) → KeepsRows R (recover_own_processing R fuel ttl_s cfg)
  unfolding recover_own_processing
  recover-Sound fuel ttl_s t = (
    λ i. i,
    λ u. (
      λ i. i,
      let deadline = t.clock + (ttl_s * 1000 + 1000) in
          let present = R.exists u.beats u.clock (alive cfg.worker_id) in
          KeepsRows-bind R (wait_if R fuel deadline (alive cfg.worker_id) present)
            (λ _. key_exists R (alive cfg.worker_id) >>= recover_if R fuel cfg)
            (wait_if-Sound fuel deadline (alive cfg.worker_id) present)
            (λ _ v. (λ i. i, recover_if-Sound fuel _)),
    ),
  )
