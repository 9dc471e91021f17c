-- ===== src/Scheduler/Reaper/Sweep.antt =====
-- src/scheduler/reaper.ts: what sweepOrphans pushes, executed without interference.
use queue_flow.Base.{
  ℕ, zero, suc, ◌+◌, ◌≡◌, ◌∙◌, refl, sym, ap, subst, inl, inr, true, Option, none, some, List, [],
  ◌∷◌, ◌++◌, Text, codes, ◌===◌, ===_refl, ===_iff, ◌⊎◌, if◌then◌else◌, length, Bool-cases, arith,
  All, take,
}
use mathlib.Core.List.{append_assoc, append-nil}
use queue_flow.Keys.{pending, processing_pattern}
use queue_flow.Proc.{Proc, done, step, result, final, result-bind, final-bind, Always, Always-bind}
use queue_flow.Store.Redis.{Redis, contains}
use queue_flow.Store.World.{World, scan_from, scan_keys}
use queue_flow.Types.{JobRow}
use queue_flow.Scheduler.Reaper.{
  select_orphans, held_by_keys, held_found, ids_held_by_redis, requeue, sweep_held,
  sweep_candidates, sweep_orphans, orphan_rows, ids, batch,
}
use queue_flow.Scheduler.Reaper.Orphans.{
  missing, is_old, Among, contains-orphan_rows, contains-take, contains-missing, contains-append,
  All-middle,
}

final-reads : {S A : Type 0} (p : Proc S A) (s : S) → Always (λ v w. w ≡ v) p → final p s ≡ s
final-reads (done a) s h = refl
final-reads (step u k) s h = final-reads (k s) (u s) (h s).1 ∙ (h s).0

module _ (R : Redis) where
  abbrev Reads : {A : Type 0} → Proc (World R) A → Type 0
  Reads p = Always (λ v w. w ≡ v) p

  scan_from-Reads :
      (fuel : ℕ) (pattern cursor : Text) (found : List Text)
      → Reads (scan_from R fuel pattern cursor found)
  unfolding scan_from
  scan_from-Reads zero pattern cursor found = tt
  scan_from-Reads (suc fuel) pattern cursor found = λ t. (
    refl,
    let page = R.scan t.lists t.beats cursor pattern in
        elim (Bool-cases (page.0 === codes "0")) [
          | inl e ↦ rw e tt
          | inr e ↦ rw e (scan_from-Reads fuel pattern page.0 (found ++ page.1))
        ],
  )

  held_by_keys-Reads : (keys held : List Text) → Reads (held_by_keys R keys held)
  unfolding held_by_keys
  held_by_keys-Reads [] held = tt
  held_by_keys-Reads (key ∷ keys) held =
      λ t. (refl, held_by_keys-Reads keys (held ++ R.lrange t.lists key))

  held_found-Reads : (held : List Text) (keys : Option (List Text)) → Reads (held_found R held keys)
  unfolding held_found
  held_found-Reads held none = tt
  held_found-Reads held (some keys) =
      Always-bind (λ v w. w ≡ v) (held_by_keys R keys held) _ (held_by_keys-Reads keys held)
        (λ a. tt)

  ids_held-Reads : (fuel : ℕ) → Reads (ids_held_by_redis R fuel)
  unfolding ids_held_by_redis scan_keys
  ids_held-Reads fuel t = (
    refl,
    Always-bind (λ v w. w ≡ v) (scan_from R fuel processing_pattern (codes "0") []) _
        (scan_from-Reads fuel processing_pattern (codes "0") [])
        (held_found-Reads (R.lrange t.lists pending)),
  )

  -- What the loop over the candidates does to a state.
  abbrev pub Pushes : World R → World R → List Text → Type 0
  Pushes s t xs =
      ((key : Text)
        → R.lrange t.lists key
          ≡ (if pending === key then R.lrange s.lists pending ++ xs else R.lrange s.lists key))
      × (t.db ≡ s.db)
      × (t.delayed ≡ s.delayed)

  pushed_none :
      (l : R.Lists) (key : Text)
      → R.lrange l key ≡ (if pending === key then R.lrange l pending ++ [] else R.lrange l key)
  pushed_none l key = elim (Bool-cases (pending === key)) [
    | inl e ↦
        let same : pending ≡ key = (===_iff pending key).0 e in
        rw e (subst (λ k. R.lrange l k ≡ R.lrange l pending ++ []) same (sym (append-nil _)))
    | inr e ↦ rw e refl
  ]

  pushed_one :
      (l : R.Lists) (id : Text) (xs : List Text) (key : Text)
      → (if pending === key
          then R.lrange (R.rpush l pending id) pending ++ xs
          else R.lrange (R.rpush l pending id) key)
        ≡ (if pending === key then R.lrange l pending ++ (id ∷ xs) else R.lrange l key)
  pushed_one l id xs key = elim (Bool-cases (pending === key)) [
    | inl e ↦
        rw (e, R.lrange-rpush l pending id pending, ===_refl pending)
          (append_assoc (R.lrange l pending) (id ∷ []) xs)
    | inr e ↦ rw (e, R.lrange-rpush l pending id key, e) refl
  ]

  requeue-Pushes :
      (held todo : List Text) (requeued : ℕ) (s : World R)
      → (result (requeue R held todo requeued) s ≡ requeued + length (missing held todo))
        × Pushes s (final (requeue R held todo requeued) s) (missing held todo)
  unfolding requeue missing
  requeue-Pushes held [] requeued s = (omega arith, (pushed_none s.lists, refl, refl))
  requeue-Pushes held (id ∷ todo) requeued s = elim (Bool-cases (contains id held)) [
    | inl e ↦ rw (e, requeue, missing) (requeue-Pushes held todo requeued s)
    | inr e ↦
        rw (e, requeue, missing)
          (let s' : World R = record s { lists = R.rpush s.lists pending id } in
            let (same, pushes) = requeue-Pushes held todo (requeued + 1) s' in
            let (grown, db, delayed) = pushes in
            (
              same ∙ omega arith,
              (λ key. grown key ∙ pushed_one s.lists id (missing held todo) key, db, delayed),
            ))
  ]

  sweep_candidates-Pushes :
      (fuel : ℕ) (todo held : List Text) (s : World R)
      → result (ids_held_by_redis R fuel) s ≡ some held
      → (result (sweep_candidates R fuel todo) s ≡ some (length (missing held todo)))
        × Pushes s (final (sweep_candidates R fuel todo) s) (missing held todo)
  unfolding sweep_candidates sweep_held missing
  sweep_candidates-Pushes fuel [] held s e = (refl, (pushed_none s.lists, refl, refl))
  sweep_candidates-Pushes fuel (id ∷ todo) held s e =
      let look = ids_held_by_redis R fuel in
      let push = requeue R held (id ∷ todo) 0 in
      let h = requeue-Pushes held (id ∷ todo) 0 s in
      let ended : final look s ≡ s = final-reads look s (ids_held-Reads fuel) in
      rw
        (
          result-bind look (sweep_held R (id ∷ todo)) s,
          final-bind look (sweep_held R (id ∷ todo)) s,
          e,
          ended,
          sweep_held,
          result-bind push (λ n. done (some n)) s,
          final-bind push (λ n. done (some n)) s,
        )
        (ap some (h.0 ∙ omega arith), h.1)

  -- Uninterrupted, where idsHeldByRedis gives a list of ids: sweepOrphans appends to the
  -- pending list, in their order, exactly the candidates of its query that are not in that
  -- list, leaves the other lists, the delayed set and the tables as they were, and returns the
  -- number of ids appended.
  pub sweep_orphans-requeues :
      (fuel age : ℕ) (held : List Text) (s : World R)
      → result (ids_held_by_redis R fuel) s ≡ some held
      → (result (sweep_orphans R fuel age) s
          ≡ some (length (missing held (result (select_orphans R age) s))))
        × Pushes s
            (final (sweep_orphans R fuel age) s)
            (missing held (result (select_orphans R age) s))
  unfolding sweep_orphans select_orphans
  sweep_orphans-requeues fuel age held s e = sweep_candidates-Pushes fuel _ held s e

  abbrev Covered : List Text → ℕ → ℕ → World R → JobRow → Type 0
  Covered held fuel age s r =
      (contains r.id held ≡ true)
      ⊎ (contains r.id (R.lrange (final (sweep_orphans R fuel age) s).lists pending) ≡ true)
      ⊎ (length (result (select_orphans R age) s) ≡ batch)

  old-Covered :
      (fuel age : ℕ) (held : List Text) (s : World R)
      → result (ids_held_by_redis R fuel) s ≡ some held
      → (r : JobRow) → Among age s.clock s.db.jobs r
      → is_old age s.clock r ≡ true
      → Covered held fuel age s r
  unfolding select_orphans
  old-Covered fuel age held s e r h o =
      let found = orphan_rows age s.clock s.db.jobs in
      let (grown, db, delayed) = (sweep_orphans-requeues fuel age held s e).1 in
      elim (contains-take batch r.id found (h o)) [
        | inr full ↦ inr (inr full)
        | inl c ↦ elim (contains-missing r.id held (ids (take batch found)) c) [
          | inl there ↦ inl there
          | inr m ↦ inr (
              inl (
                rw (grown pending, ===_refl pending)
                  (contains-append r.id (R.lrange s.lists pending) _ m)))
        ]
      ]

  -- Uninterrupted, where idsHeldByRedis gives a list of ids: for each queued row of the table
  -- that is older than the age, after sweepOrphans its id is in that list or on the pending
  -- list, unless the query has returned as many rows as its limit allows.
  pub contains-sweep_orphans :
      (fuel age : ℕ) (held : List Text) (s : World R) (before after : List JobRow) (r : JobRow)
      → result (ids_held_by_redis R fuel) s ≡ some held
      → s.db.jobs ≡ before ++ (r ∷ after)
      → is_old age s.clock r ≡ true
      → (contains r.id held ≡ true)
        ⊎ (contains r.id (R.lrange (final (sweep_orphans R fuel age) s).lists pending) ≡ true)
        ⊎ (length (result (select_orphans R age) s) ≡ batch)
  contains-sweep_orphans fuel age held s before after r e split old =
      let all = contains-orphan_rows age s.clock s.db.jobs in
      old-Covered fuel age held s e r
        (All-middle (Among age s.clock s.db.jobs) before r after
          (subst (All (Among age s.clock s.db.jobs)) split all))
        old
