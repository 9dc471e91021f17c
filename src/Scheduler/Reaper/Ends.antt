-- ===== src/Scheduler/Reaper/Ends.antt =====
-- src/scheduler/reaper.ts: the turns of the loop of reapWorker, and their number.
use queue_flow.Base.{
  ℕ, zero, suc, ◌+◌, ◌≤◌, ◌<◌, ◌≡◌, ◌∙◌, refl, sym, ap, subst, inl, inr, Bool, true, false, not,
  Option, none, some, List, [], ◌∷◌, Text, ◌===◌, ===_iff, ===_refl, if◌then◌else◌, length, last?,
  drop_last, last?-none, length-drop_last, Option-cases, arith, leb,
}
use queue_flow.Keys.{pending}
use queue_flow.Proc.{Proc, done, result, final, result-bind, final-bind, ◌>>=◌}
use queue_flow.Types.{JobRow, is_uuid}
use queue_flow.Store.Jobs.{find}
use queue_flow.Store.Redis.{Redis, contains, remove_last}
use queue_flow.Store.World.{World}
use queue_flow.Scheduler.Reaper.{is_handled, reap_row, reap_id, reap_entry, reap_worker}

last-contains : (x : Text) (xs : List Text) → last? xs ≡ some x → contains x xs ≡ true
unfolding contains
last-contains x [] e = cc
last-contains x (y ∷ []) e = ground (arith, ===_iff x y)
last-contains x (y ∷ z ∷ zs) e = ground (arith, last-contains x (z ∷ zs) e)

-- To remove the last occurrence of the last entry is to drop the last entry.
remove_last-last : (x : Text) (xs : List Text) → last? xs ≡ some x → remove_last x xs ≡ drop_last xs
unfolding remove_last contains
remove_last-last x [] e = cc
remove_last-last x (y ∷ []) e = ground (arith, ===_iff x y)
remove_last-last x (y ∷ z ∷ zs) e =
    rw (last-contains x (z ∷ zs) e, remove_last) (ap (λ t. y ∷ t) (remove_last-last x (z ∷ zs) e))

apart_sym : (a b : Text) → (a === b) ≡ false → (b === a) ≡ false
apart_sym a b e = ground (arith, ===_iff a b, ===_iff b a)

module _ (R : Redis) (key worker_id : Text) (apart : (key === pending) ≡ false) where
  -- A turn that goes on takes the last entry off the list, and counts at most one job.
  abbrev Drops : World R → Proc (World R) (Option ℕ) → Type 0
  Drops w p =
      (k : ℕ) × (result p w ≡ some k)
      × (k ≤ 1)
      × (R.lrange (final p w).lists key ≡ drop_last (R.lrange w.lists key))

  Drops-if :
      (w : World R) (b : Bool) (p q : Proc (World R) (Option ℕ))
      → Drops w p
      → Drops w q
      → Drops w (if b then p else q)
  Drops-if w true p q h k = h
  Drops-if w false p q h k = k

  lrem_last-drop_last :
      (w : World R) (id : Text)
      → last? (R.lrange w.lists key) ≡ some id
      → R.lrange (R.lrem_last w.lists key id) key ≡ drop_last (R.lrange w.lists key)
  lrem_last-drop_last w id e =
      rw (R.lrange-lrem_last w.lists key id key, ===_refl key)
        (remove_last-last id (R.lrange w.lists key) e)

  lmove_right-drop_last :
      (w : World R) (id : Text)
      → last? (R.lrange w.lists key) ≡ some id
      → R.lrange (R.lmove_right w.lists key pending) key ≡ drop_last (R.lrange w.lists key)
  lmove_right-drop_last w id e =
      rw
        (
          R.lrange-lmove_right w.lists key pending key apart,
          e,
          apart_sym key pending apart,
          ===_refl key,
        )
        refl

  reap_row-Drops :
      (w : World R) (id : Text) (row : Option JobRow)
      → last? (R.lrange w.lists key) ≡ some id
      → Drops w (reap_row R key worker_id id row)
  unfolding reap_row
  reap_row-Drops w id none e = (0, refl, omega arith, lrem_last-drop_last w id e)
  reap_row-Drops w id (some row) e =
      Drops-if w (is_handled row.status) _ _ (0, refl, omega arith, lrem_last-drop_last w id e)
        (Drops-if w (leb row.max_attempts row.attempts) _ _
          (1, refl, omega arith, lrem_last-drop_last w id e)
          (1, refl, omega arith, lmove_right-drop_last w id e))

  reap_id-Drops :
      (w : World R) (id : Text)
      → last? (R.lrange w.lists key) ≡ some id
      → Drops w (reap_id R key worker_id (some id))
  unfolding reap_id
  reap_id-Drops w id e =
      Drops-if w (not (is_uuid id)) _ _ (0, refl, omega arith, lrem_last-drop_last w id e)
        (reap_row-Drops w id (find id w.db.jobs) e)

  pub reap_entry-Drops :
      (w : World R) (id : Text)
      → last? (R.lrange w.lists key) ≡ some id
      → Drops w (reap_entry R key worker_id)
  unfolding reap_entry
  reap_entry-Drops w id e =
      subst (λ o. Drops w (reap_id R key worker_id o)) (sym (R.lindex_last-lrange w.lists key ∙ e))
        (reap_id-Drops w id e)

  abbrev Stops : World R → Proc (World R) (Option ℕ) → Type 0
  Stops w p = (result p w ≡ none) × (final p w ≡ w)

  pub reap_entry-Stops :
      (w : World R) → last? (R.lrange w.lists key) ≡ none → Stops w (reap_entry R key worker_id)
  unfolding reap_entry reap_id
  reap_entry-Stops w e =
      subst (λ o. Stops w (reap_id R key worker_id o)) (sym (R.lindex_last-lrange w.lists key ∙ e))
        (refl, refl)

  abbrev pub more : ℕ → ℕ → Option ℕ → Proc (World R) (Option ℕ)
  more fuel reaped turn = elim turn [
    | none ↦ done (some reaped)
    | some n ↦ reap_worker R fuel key worker_id (reaped + n)
  ]

  abbrev Emptied : ℕ → ℕ → Option ℕ → World R → Type 0
  Emptied most reaped o v =
      (n : ℕ) × (o ≡ some (reaped + n)) × (n ≤ most) × (R.lrange v.lists key ≡ [])

  pub final-turn :
      (fuel reaped : ℕ) (w : World R) (o : Option ℕ) (v : World R)
      → result (reap_entry R key worker_id) w ≡ o
      → final (reap_entry R key worker_id) w ≡ v
      → final (reap_worker R (suc fuel) key worker_id reaped) w ≡ final (more fuel reaped o) v
  unfolding reap_worker
  final-turn fuel reaped w o v r f =
      let p = reap_entry R key worker_id in
      let next = more fuel reaped in
      final-bind p next w ∙ ap (λ a. final (next a) (final p w)) r ∙ ap (final (next o)) f

  after_turn :
      (fuel reaped : ℕ) (w : World R) (o : Option ℕ) (v : World R) (most : ℕ)
      → result (reap_entry R key worker_id) w ≡ o
      → final (reap_entry R key worker_id) w ≡ v
      → Emptied most reaped (result (more fuel reaped o) v) (final (more fuel reaped o) v)
      → Emptied most reaped
          (result (reap_worker R (suc fuel) key worker_id reaped) w)
          (final (reap_worker R (suc fuel) key worker_id reaped) w)
  unfolding reap_worker
  after_turn fuel reaped w o v most r f h =
      let p = reap_entry R key worker_id in
      let next = more fuel reaped in
      let er =
        result-bind p next w ∙ ap (λ a. result (next a) (final p w)) r ∙ ap (result (next o)) f in
      subst (λ a. Emptied most reaped a (final (p >>= next) w)) (sym er)
        (subst (Emptied most reaped (result (next o) v)) (sym (final-turn fuel reaped w o v r f)) h)

  -- On a list other than the pending one that nobody else touches, with more fuel than the
  -- list is long: the loop of reapWorker ends, its count grows by at most the length of the
  -- list, and the list is empty afterwards.
  pub reap_worker-empties :
      (fuel reaped : ℕ) (w : World R)
      → length (R.lrange w.lists key) < fuel
      → Emptied
          (length (R.lrange w.lists key))
          reaped
          (result (reap_worker R fuel key worker_id reaped) w)
          (final (reap_worker R fuel key worker_id reaped) w)
  reap_worker-empties zero reaped w h = absurd (omega arith)
  reap_worker-empties (suc fuel) reaped w h = elim (Option-cases (last? (R.lrange w.lists key))) [
    | inl e ↦
        let (r, f) = reap_entry-Stops w e in
        after_turn fuel reaped w none w _ r f
          (0, ground arith, omega arith, last?-none (R.lrange w.lists key) e)
    | inr (id, e) ↦
        let (k, r, le, rest) = reap_entry-Drops w id e in
        let v = final (reap_entry R key worker_id) w in
        let shorter = length-drop_last (R.lrange w.lists key) id e in
        let (n, r', le', empty) =
          reap_worker-empties fuel (reaped + k) v (rw rest (omega (arith, shorter))) in
        after_turn fuel reaped w (some k) v _ r refl (
          k + n,
          r' ∙ ap (λ m. some m) (omega arith),
          omega (arith, shorter, le, le', ap length rest),
          empty,
        )
  ]
