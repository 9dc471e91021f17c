-- ===== src/Scheduler/Reaper/Ghosts.antt =====
-- src/scheduler/reaper.ts, command by command, and the ids on the queues.
use queue_flow.Base.{
  ℕ, zero, suc, ◌+◌, ◌≡◌, refl, sym, subst, inl, inr, Bool, true, false, Option, none, some, List,
  [], ◌∷◌, ◌++◌, Text, All, All-map, leb, Bool-cases, codes, ◌===◌,
}
use queue_flow.Keys.{pending, processing, alive, worker_id_from_processing_key, processing_pattern}
use queue_flow.Keys.Parse.{processing-ne-pending, worker_id-processing_iff}
use queue_flow.Types.{JobRow, is_uuid}
use queue_flow.Proc.{Proc, done}
use queue_flow.Worker.{set_dead}
use queue_flow.Store.Redis.{Redis, contains}
use queue_flow.Store.World.{World, scan_from, scan_keys}
use queue_flow.Store.Views.{HasRow}
use queue_flow.Store.Known.{
  Keeps, Any, Keeps-bind, Keeps-then, update-Keeps, rpush-Known, lrem_last-Known, lmove_right-Known,
}
use queue_flow.Scheduler.Reaper.Orphans.{orphans-HasRow}
use queue_flow.Scheduler.Reaper.{
  always, is_handled, set_rescued, stopped_message, reap_row, reap_id, reap_entry, reap_worker,
  reap_owner, reap_key, reap_keys, reap_found, reap_dead, select_orphans, held_by_keys, held_found,
  ids_held_by_redis, requeue, sweep_held, sweep_candidates, sweep_orphans,
}

module _ (R : Redis) where
  reap_row-Keeps :
      (w id : Text) (row : Option JobRow) (s : World R)
      → Keeps R (Any R) (reap_row R (processing w) w id row) s
  unfolding reap_row set_dead set_rescued
  reap_row-Keeps w id none s = λ t g i. (lrem_last-Known R t (processing w) id i, λ j x. x, tt)
  reap_row-Keeps w id (some row) s = elim (Bool-cases (is_handled row.status)) [
    | inl e ↦ rw e (λ t g i. (lrem_last-Known R t (processing w) id i, λ j x. x, tt))
    | inr e ↦ rw e (elim (Bool-cases (leb row.max_attempts row.attempts)) [
      | inl f ↦ rw f (λ t g i.
          let (i', g') =
            update-Keeps R t id always (set_dead (stopped_message w) t.clock) (λ r. refl) i in
          (i', g', λ t' h' i''. (lrem_last-Known R t' (processing w) id i'', λ j x. x, tt)))
      | inr f ↦ rw f (λ t g i.
          let (i', g') = update-Keeps R t id always (set_rescued t.clock) (λ r. refl) i in
          (
            i',
            g',
            λ t' h' i''. (
              lmove_right-Known R t' (processing w) pending (processing-ne-pending w) i'',
              λ j x. x,
              tt,
            ),
          ))
    ])
  ]

  reap_id-Keeps :
      (w : Text) (entry : Option Text) (s : World R)
      → Keeps R (Any R) (reap_id R (processing w) w entry) s
  unfolding reap_id
  reap_id-Keeps w none s = tt
  reap_id-Keeps w (some id) s = elim (Bool-cases (is_uuid id)) [
    | inl e ↦ rw e (λ t g i. (i, λ j x. x, reap_row-Keeps w id _ t))
    | inr e ↦ rw e (λ t g i. (lrem_last-Known R t (processing w) id i, λ j x. x, tt))
  ]

  reap_entry-Keeps : (w : Text) (s : World R) → Keeps R (Any R) (reap_entry R (processing w) w) s
  unfolding reap_entry
  reap_entry-Keeps w s t g i = (i, λ j x. x, reap_id-Keeps w _ t)

  after_turn :
      (next : ℕ → Proc (World R) (Option ℕ)) (reaped : ℕ)
      → ((n : ℕ) (t : World R) → Keeps R (Any R) (next n) t)
      → (o : Option ℕ) (t : World R)
      → Keeps R (Any R) (elim o [ none ↦ done (some reaped) | some n ↦ next (reaped + n) ]) t
  after_turn next reaped h none t = tt
  after_turn next reaped h (some n) t = h (reaped + n) t

  after_key :
      (next : ℕ → Proc (World R) (Option ℕ)) (reaped : ℕ)
      → ((n : ℕ) (t : World R) → Keeps R (Any R) (next n) t)
      → (o : Option ℕ) (t : World R)
      → Keeps R (Any R) (elim o [ none ↦ done none | some n ↦ next (reaped + n) ]) t
  after_key next reaped h none t = tt
  after_key next reaped h (some n) t = h (reaped + n) t

  reap_worker-Keeps :
      (fuel : ℕ) (w : Text) (reaped : ℕ) (s : World R)
      → Keeps R (Any R) (reap_worker R fuel (processing w) w reaped) s
  unfolding reap_worker
  reap_worker-Keeps zero w reaped s = tt
  reap_worker-Keeps (suc fuel) w reaped s =
      Keeps-bind R (reap_entry R (processing w) w) _ s (reap_entry-Keeps w s) (
        after_turn (reap_worker R fuel (processing w) w) reaped
          (λ n t. reap_worker-Keeps fuel w n t))

  reap_owner-Keeps :
      (fuel : ℕ) (w : Text) (present : Bool) (s : World R)
      → Keeps R (Any R) (reap_owner R fuel (processing w) w present) s
  unfolding reap_owner
  reap_owner-Keeps fuel w true s = tt
  reap_owner-Keeps fuel w false s = reap_worker-Keeps fuel w 0 s

  reap_key-Keeps :
      (fuel : ℕ) (key : Text) (owner : Option Text) (s : World R)
      → worker_id_from_processing_key key ≡ owner
      → Keeps R (Any R) (reap_key R fuel key owner) s
  unfolding reap_key
  reap_key-Keeps fuel key none s e = tt
  reap_key-Keeps fuel key (some w) s e = λ t g i. (
    i,
    λ j x. x,
    subst (λ k. Keeps R (Any R) (reap_owner R fuel k w (R.exists t.beats t.clock (alive w))) t)
        (sym ((worker_id-processing_iff key w).0 e).0) (reap_owner-Keeps fuel w _ t),
  )

  reap_keys-Keeps :
      (fuel : ℕ) (keys : List Text) (reaped : ℕ) (s : World R)
      → Keeps R (Any R) (reap_keys R fuel keys reaped) s
  unfolding reap_keys
  reap_keys-Keeps fuel [] reaped s = tt
  reap_keys-Keeps fuel (key ∷ keys) reaped s =
      Keeps-bind R (reap_key R fuel key (worker_id_from_processing_key key)) _ s
        (reap_key-Keeps fuel key _ s refl)
        (after_key (reap_keys R fuel keys) reaped (λ n t. reap_keys-Keeps fuel keys n t))

  reap_found-Keeps :
      (fuel : ℕ) (keys : Option (List Text)) (s : World R)
      → Keeps R (Any R) (reap_found R fuel keys) s
  unfolding reap_found
  reap_found-Keeps fuel none s = tt
  reap_found-Keeps fuel (some keys) s = reap_keys-Keeps fuel keys 0 s

  pub scan_from-Keeps :
      (fuel : ℕ) (pattern cursor : Text) (found : List Text) (s : World R)
      → Keeps R (Any R) (scan_from R fuel pattern cursor found) s
  unfolding scan_from
  scan_from-Keeps zero pattern cursor found s = tt
  scan_from-Keeps (suc fuel) pattern cursor found s = λ t g i. (
    i,
    λ j x. x,
    let page = R.scan t.lists t.beats cursor pattern in
        elim (Bool-cases (page.0 === codes "0")) [
          | inl e ↦ rw e tt
          | inr e ↦ rw e (scan_from-Keeps fuel pattern page.0 (found ++ page.1) t)
        ],
  )

  pub reap_dead-Keeps : (fuel : ℕ) (s : World R) → Keeps R (Any R) (reap_dead R fuel) s
  unfolding reap_dead scan_keys
  reap_dead-Keeps fuel s =
      Keeps-bind R (scan_from R fuel processing_pattern (codes "0") []) (reap_found R fuel) s
        (scan_from-Keeps fuel processing_pattern (codes "0") [] s) (reap_found-Keeps fuel)

  held_by_keys-Keeps :
      (keys held : List Text) (s : World R) → Keeps R (Any R) (held_by_keys R keys held) s
  unfolding held_by_keys
  held_by_keys-Keeps [] held s = tt
  held_by_keys-Keeps (key ∷ keys) held s =
      λ t g i. (i, λ j x. x, held_by_keys-Keeps keys (held ++ R.lrange t.lists key) t)

  held_found-Keeps :
      (held : List Text) (keys : Option (List Text)) (s : World R)
      → Keeps R (Any R) (held_found R held keys) s
  unfolding held_found
  held_found-Keeps held none s = tt
  held_found-Keeps held (some keys) s =
      Keeps-bind R (held_by_keys R keys held) _ s (held_by_keys-Keeps keys held s) (λ a t. tt)

  ids_held-Keeps : (fuel : ℕ) (s : World R) → Keeps R (Any R) (ids_held_by_redis R fuel) s
  unfolding ids_held_by_redis scan_keys
  ids_held-Keeps fuel s t g i = (
    i,
    λ j x. x,
    Keeps-bind R (scan_from R fuel processing_pattern (codes "0") []) _ t
        (scan_from-Keeps fuel processing_pattern (codes "0") [] t)
        (λ keys v. held_found-Keeps (R.lrange t.lists pending) keys v),
  )

  requeue-Keeps :
      (held todo : List Text) (requeued : ℕ) (s : World R)
      → All (HasRow s.db.jobs) todo
      → Keeps R (Any R) (requeue R held todo requeued) s
  unfolding requeue
  requeue-Keeps held [] requeued s h = tt
  requeue-Keeps held (id ∷ todo) requeued s h = elim (Bool-cases (contains id held)) [
    | inl e ↦ rw (e, requeue) (requeue-Keeps held todo requeued s h.1)
    | inr e ↦
        rw (e, requeue)
          (λ t g i. (
            rpush-Known R t pending id (g id h.0) i,
            λ j x. x,
            requeue-Keeps held todo (requeued + 1) _
                (All-map (HasRow s.db.jobs) (HasRow t.db.jobs) todo g h.1),
          ))
  ]

  sweep_held-Keeps :
      (todo : List Text) (held : Option (List Text)) (s : World R)
      → All (HasRow s.db.jobs) todo
      → Keeps R (Any R) (sweep_held R todo held) s
  unfolding sweep_held
  sweep_held-Keeps todo none s h = tt
  sweep_held-Keeps todo (some held) s h =
      Keeps-bind R (requeue R held todo 0) _ s (requeue-Keeps held todo 0 s h) (λ n t. tt)

  sweep_candidates-Keeps :
      (fuel : ℕ) (todo : List Text) (s : World R)
      → All (HasRow s.db.jobs) todo
      → Keeps R (Any R) (sweep_candidates R fuel todo) s
  unfolding sweep_candidates
  sweep_candidates-Keeps fuel [] s h = tt
  sweep_candidates-Keeps fuel (id ∷ todo) s h =
      Keeps-then R (λ w. All (HasRow w.db.jobs) (id ∷ todo)) (ids_held_by_redis R fuel) _ s
        (λ a b g. All-map (HasRow a.db.jobs) (HasRow b.db.jobs) (id ∷ todo) g) h
        (ids_held-Keeps fuel s) (λ held t h'. sweep_held-Keeps (id ∷ todo) held t h')

  pub sweep_orphans-Keeps :
      (fuel age : ℕ) (s : World R) → Keeps R (Any R) (sweep_orphans R fuel age) s
  unfolding sweep_orphans select_orphans
  sweep_orphans-Keeps fuel age s t g i =
      (i, λ j x. x, sweep_candidates-Keeps fuel _ t (orphans-HasRow age t.clock t.db.jobs))
