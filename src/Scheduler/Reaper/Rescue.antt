-- ===== src/Scheduler/Reaper/Rescue.antt =====
-- src/scheduler/reaper.ts: what the loop of reapWorker does to the pending list.
use mathlib.Core.List.{append_assoc, append-nil}
use queue_flow.Base.{
  ℕ, zero, suc, ◌+◌, ◌<◌, ◌≡◌, ◌∙◌, refl, sym, ap, subst, inl, inr, Bool, true, false, not, ◌&&◌,
  Option, none, some, List, [], ◌∷◌, ◌++◌, Text, ◌===◌, ===_iff, ===_refl, if◌then◌else◌, length,
  last?, drop_last, last?-none, last?-split, length-drop_last, Option-cases, Bool-cases, arith, leb,
}
use queue_flow.Keys.{pending}
use queue_flow.Proc.{Proc, final}
use queue_flow.Types.{JobRow, is_uuid}
use queue_flow.Worker.{set_dead}
use queue_flow.Store.Jobs.{find, update, find-update_self, find-update_other}
use queue_flow.Store.Redis.{Redis}
use queue_flow.Store.World.{World}
use queue_flow.Scheduler.Reaper.{
  always, is_handled, set_rescued, stopped_message, reap_row, reap_id, reap_entry, reap_worker,
}
use queue_flow.Scheduler.Reaper.Ends.{reap_entry-Drops, reap_entry-Stops, final-turn}

-- A row that is to be run again: neither over nor waiting for a retry, with attempts left.
abbrev pub rescuable_row : Option JobRow → Bool
rescuable_row none = false
rescuable_row (some r) = not (is_handled r.status) && not (leb r.max_attempts r.attempts)

abbrev pub is_rescuable : List JobRow → Text → Bool
is_rescuable jobs id = is_uuid id && rescuable_row (find id jobs)

abbrev one : Bool → Text → List Text
one b id = if b then id ∷ [] else []

-- The entries that pass the test, the last one first.
abbrev pub last_first : (Text → Bool) → List Text → List Text
last_first p [] = []
last_first p (x ∷ xs) = last_first p xs ++ one (p x) x

last_first-append :
    (p : Text → Bool) (xs : List Text) (x : Text)
    → last_first p (xs ++ (x ∷ [])) ≡ one (p x) x ++ last_first p xs
last_first-append p [] x = sym (append-nil (one (p x) x))
last_first-append p (y ∷ ys) x =
    ap (λ l. l ++ one (p y) y) (last_first-append p ys x)
    ∙ append_assoc (one (p x) x) (last_first p ys) (one (p y) y)

last_first-same :
    (p q : Text → Bool) (xs : List Text)
    → ((x : Text) → p x ≡ q x)
    → last_first p xs ≡ last_first q xs
last_first-same p q [] h = refl
last_first-same p q (x ∷ xs) h = rw (h x, last_first-same p q xs h) refl

module _ (set : JobRow → JobRow) (keep : (r : JobRow) → (set r).id ≡ r.id) where
  is_rescuable-same :
      (jobs : List JobRow) (id : Text) (r : JobRow)
      → find id jobs ≡ some r
      → rescuable_row (some (set r)) ≡ rescuable_row (some r)
      → (j : Text) → is_rescuable (update id always set jobs) j ≡ is_rescuable jobs j
  is_rescuable-same jobs id r f s j = elim (Bool-cases (id === j)) [
    | inl e ↦
        subst (λ i. is_rescuable (update id always set jobs) i ≡ is_rescuable jobs i)
          ((===_iff id j).0 e)
          (ap (λ o. is_uuid id && rescuable_row o)
              (find-update_self id always set keep jobs r f refl)
            ∙ ap (λ b. is_uuid id && b) s
            ∙ sym (ap (λ o. is_uuid id && rescuable_row o) f))
    | inr e ↦ ap (λ o. is_uuid j && rescuable_row o) (find-update_other id always set keep j jobs e)
  ]

module _ (R : Redis) (key worker_id : Text) (apart : (key === pending) ≡ false) where
  -- What one turn does to the pending list, and that it changes no other entry's fate.
  abbrev Rescues : Text → World R → Proc (World R) (Option ℕ) → Type 0
  Rescues id w p =
      (R.lrange (final p w).lists pending
        ≡ R.lrange w.lists pending ++ one (is_rescuable w.db.jobs id) id)
      × ((j : Text) → is_rescuable (final p w).db.jobs j ≡ is_rescuable w.db.jobs j)

  lrem_last-pending :
      (w : World R) (id : Text) (b : Bool)
      → b ≡ false
      → R.lrange (R.lrem_last w.lists key id) pending ≡ R.lrange w.lists pending ++ one b id
  lrem_last-pending w id b e =
      rw (R.lrange-lrem_last w.lists key id pending, apart, e)
        (sym (append-nil (R.lrange w.lists pending)))

  lmove_right-pending :
      (w : World R) (id : Text) (b : Bool)
      → b ≡ true
      → last? (R.lrange w.lists key) ≡ some id
      → R.lrange (R.lmove_right w.lists key pending) pending ≡ R.lrange w.lists pending ++ one b id
  lmove_right-pending w id b e l =
      rw (R.lrange-lmove_right w.lists key pending pending apart, l, e, ===_refl pending) refl

  Rescues-if :
      (id : Text) (w : World R) (b : Bool) (p q : Proc (World R) (Option ℕ))
      → (b ≡ true → Rescues id w p)
      → (b ≡ false → Rescues id w q)
      → Rescues id w (if b then p else q)
  Rescues-if id w true p q h k = h refl
  Rescues-if id w false p q h k = k refl

  row_fate :
      (w : World R) (id : Text) (o : Option JobRow) (b : Bool)
      → find id w.db.jobs ≡ o
      → is_uuid id ≡ true
      → rescuable_row o ≡ b
      → is_rescuable w.db.jobs id ≡ b
  row_fate w id o b f u e = rw (f, u) e

  reap_row-Rescues :
      (w : World R) (id : Text) (row : Option JobRow)
      → last? (R.lrange w.lists key) ≡ some id
      → is_uuid id ≡ true
      → find id w.db.jobs ≡ row
      → Rescues id w (reap_row R key worker_id id row)
  unfolding reap_row set_dead set_rescued is_handled
  reap_row-Rescues w id none l u f =
      (lrem_last-pending w id _ (row_fate w id none false f u refl), λ j. refl)
  reap_row-Rescues w id (some row) l u f =
      Rescues-if id w (is_handled row.status) _ _
        (λ h. (
          lrem_last-pending w id _ (row_fate w id (some row) false f u (ground (arith, h))),
          λ j. refl,
        ))
        (λ h.
          Rescues-if id w (leb row.max_attempts row.attempts) _ _
            (λ full. (
              lrem_last-pending w id _
                  (row_fate w id (some row) false f u (ground (arith, h, full))),
              is_rescuable-same (set_dead (stopped_message worker_id) w.clock) (λ r. refl) w.db.jobs
                  id row f (ground (arith, h, full)),
            ))
            (λ left. (
              lmove_right-pending w id _
                  (row_fate w id (some row) true f u (ground (arith, h, left))) l,
              is_rescuable-same (set_rescued w.clock) (λ r. refl) w.db.jobs id row f
                  (ground (arith, h, left)),
            )))

  reap_entry-Rescues :
      (w : World R) (id : Text)
      → last? (R.lrange w.lists key) ≡ some id
      → Rescues id w (reap_entry R key worker_id)
  unfolding reap_entry reap_id
  reap_entry-Rescues w id l =
      subst (λ o. Rescues id w (reap_id R key worker_id o))
        (sym (R.lindex_last-lrange w.lists key ∙ l))
        (Rescues-if id w (not (is_uuid id)) _ _
          (λ n. (lrem_last-pending w id _ (ground (arith, n)), λ j. refl))
          (λ n. reap_row-Rescues w id (find id w.db.jobs) l (ground (arith, n)) refl))

  -- On a list other than the pending one that nobody else touches, with more fuel than the
  -- list is long: the loop of reapWorker appends to the pending list exactly the entries that
  -- are uuids of rows with attempts left and neither over nor waiting for a retry, as the
  -- table has them before the loop, the last entry first. Every other entry is dropped.
  pub reap_worker-rescues :
      (fuel reaped : ℕ) (w : World R)
      → length (R.lrange w.lists key) < fuel
      → R.lrange (final (reap_worker R fuel key worker_id reaped) w).lists pending
        ≡ R.lrange w.lists pending ++ last_first (is_rescuable w.db.jobs) (R.lrange w.lists key)
  reap_worker-rescues zero reaped w h = absurd (omega arith)
  reap_worker-rescues (suc fuel) reaped w h = elim (Option-cases (last? (R.lrange w.lists key))) [
    | inl e ↦
        let (r, f) = reap_entry-Stops R key worker_id apart w e in
        ap (λ v. R.lrange v.lists pending)
          (final-turn R key worker_id apart fuel reaped w none w r f)
        ∙ rw (last?-none (R.lrange w.lists key) e) (sym (append-nil (R.lrange w.lists pending)))
    | inr (id, e) ↦
        let (k, r, le, rest) = reap_entry-Drops R key worker_id apart w id e in
        let (moved, same) = reap_entry-Rescues w id e in
        let v = final (reap_entry R key worker_id) w in
        let shorter = length-drop_last (R.lrange w.lists key) id e in
        let ih = reap_worker-rescues fuel (reaped + k) v (rw rest (omega (arith, shorter))) in
        let p = is_rescuable w.db.jobs in
        ap (λ v'. R.lrange v'.lists pending)
          (final-turn R key worker_id apart fuel reaped w (some k) v r refl)
        ∙ ih
        ∙ rw
            (
              moved,
              rest,
              last_first-same (is_rescuable v.db.jobs) p (drop_last (R.lrange w.lists key)) same,
            )
            (append_assoc (R.lrange w.lists pending) (one (p id) id)
              (last_first p (drop_last (R.lrange w.lists key))))
        ∙ ap (λ l. R.lrange w.lists pending ++ l)
            (sym (
              ap (last_first p) (last?-split (R.lrange w.lists key) id e)
              ∙ last_first-append p (drop_last (R.lrange w.lists key)) id))
  ]
