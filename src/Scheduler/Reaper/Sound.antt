-- ===== src/Scheduler/Reaper/Sound.antt =====
-- src/scheduler/reaper.ts, command by command, and the columns of the rows.
use queue_flow.Base.{
  ℕ, zero, suc, ◌+◌, refl, inl, inr, Bool, true, false, Option, none, some, List, [], ◌∷◌, ◌++◌,
  Text, leb, Bool-cases, codes, ◌===◌,
}
use queue_flow.Keys.{pending, worker_id_from_processing_key, processing_pattern}
use queue_flow.Types.{JobRow, is_uuid}
use queue_flow.Proc.{Proc, done}
use queue_flow.Worker.{set_dead}
use queue_flow.Store.Redis.{Redis, contains}
use queue_flow.Store.World.{World, scan_from, scan_keys}
use queue_flow.Store.Rows.{IsSound, All-update, KeepsRows, KeepsRows-bind}
use queue_flow.Scheduler.Reaper.{
  always, is_handled, set_rescued, stopped_message, reap_row, reap_id, reap_entry, reap_worker,
  reap_owner, reap_key, reap_keys, reap_found, reap_dead, select_orphans, held_by_keys, held_found,
  ids_held_by_redis, requeue, sweep_held, sweep_candidates, sweep_orphans,
}

module _ (R : Redis) where
  reap_row-Sound : (key w id : Text) (row : Option JobRow) → KeepsRows R (reap_row R key w id row)
  unfolding reap_row set_dead set_rescued
  reap_row-Sound key w id none = λ t. (λ i. i, tt)
  reap_row-Sound key w id (some row) = elim (Bool-cases (is_handled row.status)) [
    | inl e ↦ rw e (λ t. (λ i. i, tt))
    | inr e ↦ rw e (elim (Bool-cases (leb row.max_attempts row.attempts)) [
      | inl f ↦ rw f (λ t. (
        All-update (IsSound t.db.effects) id always (set_dead (stopped_message w) t.clock) t.db.jobs
            (λ r. (refl, refl)),
        λ u. (λ i. i, tt),
      ))
      | inr f ↦ rw f (λ t. (
        All-update (IsSound t.db.effects) id always (set_rescued t.clock) t.db.jobs (λ r. tt),
        λ u. (λ i. i, tt),
      ))
    ])
  ]

  reap_id-Sound : (key w : Text) (entry : Option Text) → KeepsRows R (reap_id R key w entry)
  unfolding reap_id
  reap_id-Sound key w none = tt
  reap_id-Sound key w (some id) = elim (Bool-cases (is_uuid id)) [
    | inl e ↦ rw e (λ t. (λ i. i, reap_row-Sound key w id _))
    | inr e ↦ rw e (λ t. (λ i. i, tt))
  ]

  after_turn :
      (next : ℕ → Proc (World R) (Option ℕ)) (reaped : ℕ)
      → ((n : ℕ) → KeepsRows R (next n))
      → (o : Option ℕ)
      → KeepsRows R (elim o [ none ↦ done (some reaped) | some n ↦ next (reaped + n) ])
  after_turn next reaped h none = tt
  after_turn next reaped h (some n) = h (reaped + n)

  after_key :
      (next : ℕ → Proc (World R) (Option ℕ)) (reaped : ℕ)
      → ((n : ℕ) → KeepsRows R (next n))
      → (o : Option ℕ) → KeepsRows R (elim o [ none ↦ done none | some n ↦ next (reaped + n) ])
  after_key next reaped h none = tt
  after_key next reaped h (some n) = h (reaped + n)

  reap_worker-Sound :
      (fuel : ℕ) (key w : Text) (reaped : ℕ) → KeepsRows R (reap_worker R fuel key w reaped)
  unfolding reap_worker reap_entry
  reap_worker-Sound zero key w reaped = tt
  reap_worker-Sound (suc fuel) key w reaped =
      KeepsRows-bind R (reap_entry R key w) _ (λ t. (λ i. i, reap_id-Sound key w _))
        (after_turn (reap_worker R fuel key w) reaped (reap_worker-Sound fuel key w))

  reap_owner-Sound :
      (fuel : ℕ) (key w : Text) (present : Bool) → KeepsRows R (reap_owner R fuel key w present)
  unfolding reap_owner
  reap_owner-Sound fuel key w true = tt
  reap_owner-Sound fuel key w false = reap_worker-Sound fuel key w 0

  reap_key-Sound :
      (fuel : ℕ) (key : Text) (owner : Option Text) → KeepsRows R (reap_key R fuel key owner)
  unfolding reap_key
  reap_key-Sound fuel key none = tt
  reap_key-Sound fuel key (some w) = λ t. (λ i. i, reap_owner-Sound fuel key w _)

  reap_keys-Sound :
      (fuel : ℕ) (keys : List Text) (reaped : ℕ) → KeepsRows R (reap_keys R fuel keys reaped)
  unfolding reap_keys
  reap_keys-Sound fuel [] reaped = tt
  reap_keys-Sound fuel (key ∷ keys) reaped =
      KeepsRows-bind R (reap_key R fuel key (worker_id_from_processing_key key)) _
        (reap_key-Sound fuel key _)
        (after_key (reap_keys R fuel keys) reaped (reap_keys-Sound fuel keys))

  reap_found-Sound : (fuel : ℕ) (keys : Option (List Text)) → KeepsRows R (reap_found R fuel keys)
  unfolding reap_found
  reap_found-Sound fuel none = tt
  reap_found-Sound fuel (some keys) = reap_keys-Sound fuel keys 0

  scan_from-Sound :
      (fuel : ℕ) (pattern cursor : Text) (found : List Text)
      → KeepsRows R (scan_from R fuel pattern cursor found)
  unfolding scan_from
  scan_from-Sound zero pattern cursor found = tt
  scan_from-Sound (suc fuel) pattern cursor found = λ t. (
    λ i. i,
    let page = R.scan t.lists t.beats cursor pattern in
        elim (Bool-cases (page.0 === codes "0")) [
          | inl e ↦ rw e tt
          | inr e ↦ rw e (scan_from-Sound fuel pattern page.0 (found ++ page.1))
        ],
  )

  pub reap_dead-Sound : (fuel : ℕ) → KeepsRows R (reap_dead R fuel)
  unfolding reap_dead scan_keys
  reap_dead-Sound fuel =
      KeepsRows-bind R (scan_from R fuel processing_pattern (codes "0") []) (reap_found R fuel)
        (scan_from-Sound fuel processing_pattern (codes "0") []) (reap_found-Sound fuel)

  held_by_keys-Sound : (keys held : List Text) → KeepsRows R (held_by_keys R keys held)
  unfolding held_by_keys
  held_by_keys-Sound [] held = tt
  held_by_keys-Sound (key ∷ keys) held =
      λ t. (λ i. i, held_by_keys-Sound keys (held ++ R.lrange t.lists key))

  held_found-Sound :
      (held : List Text) (keys : Option (List Text)) → KeepsRows R (held_found R held keys)
  unfolding held_found
  held_found-Sound held none = tt
  held_found-Sound held (some keys) =
      KeepsRows-bind R (held_by_keys R keys held) _ (held_by_keys-Sound keys held) (λ a. tt)

  ids_held-Sound : (fuel : ℕ) → KeepsRows R (ids_held_by_redis R fuel)
  unfolding ids_held_by_redis scan_keys
  ids_held-Sound fuel t = (
    λ i. i,
    KeepsRows-bind R (scan_from R fuel processing_pattern (codes "0") []) _
        (scan_from-Sound fuel processing_pattern (codes "0") [])
        (held_found-Sound (R.lrange t.lists pending)),
  )

  requeue-Sound :
      (held todo : List Text) (requeued : ℕ) → KeepsRows R (requeue R held todo requeued)
  unfolding requeue
  requeue-Sound held [] requeued = tt
  requeue-Sound held (id ∷ todo) requeued = elim (Bool-cases (contains id held)) [
    | inl e ↦ rw (e, requeue) (requeue-Sound held todo requeued)
    | inr e ↦ rw (e, requeue) (λ t. (λ i. i, requeue-Sound held todo (requeued + 1)))
  ]

  sweep_held-Sound :
      (todo : List Text) (held : Option (List Text)) → KeepsRows R (sweep_held R todo held)
  unfolding sweep_held
  sweep_held-Sound todo none = tt
  sweep_held-Sound todo (some held) =
      KeepsRows-bind R (requeue R held todo 0) _ (requeue-Sound held todo 0) (λ n. tt)

  sweep_candidates-Sound :
      (fuel : ℕ) (todo : List Text) → KeepsRows R (sweep_candidates R fuel todo)
  unfolding sweep_candidates
  sweep_candidates-Sound fuel [] = tt
  sweep_candidates-Sound fuel (id ∷ todo) =
      KeepsRows-bind R (ids_held_by_redis R fuel) (sweep_held R (id ∷ todo)) (ids_held-Sound fuel)
        (sweep_held-Sound (id ∷ todo))

  pub sweep_orphans-Sound : (fuel age : ℕ) → KeepsRows R (sweep_orphans R fuel age)
  unfolding sweep_orphans select_orphans
  sweep_orphans-Sound fuel age t = (λ i. i, sweep_candidates-Sound fuel _)
