-- ===== src/Scheduler/Promotes.antt =====
-- src/scheduler/index.ts: what promoteDue does, executed without interference.
use mathlib.Core.List.{reverse_aux}
use queue_flow.Base.{
  ℕ, ◌+◌, ◌≤◌, ◌≡◌, ◌∙◌, refl, sym, ap, subst, inl, inr, true, false, Option, none, some, List, [],
  ◌∷◌, Text, ◌===◌, ===_iff, ===_refl, if◌then◌else◌, length, arith, Bool-cases, All, All-map,
}
use queue_flow.Keys.{pending}
use queue_flow.Proc.{result, final, result-bind, final-bind}
use queue_flow.Types.{JobRow, queued}
use queue_flow.Store.Jobs.{find, update}
use queue_flow.Store.Redis.{Redis, contains}
use queue_flow.Store.World.{World, is_some}
use queue_flow.Scheduler.{
  promote_claimed, promote_one, promote_each, promote_due, always, set_promoted, batch,
}

-- No id stands twice in a list, as in the answer of ZRANGEBYSCORE.
abbrev pub IsDistinct : List Text → Type 0
IsDistinct [] = Unit
IsDistinct (x ∷ xs) = (contains x xs ≡ false) × IsDistinct xs

-- A row after its promotion: queued, with no next run.
abbrev pub requeued : Option JobRow → Option JobRow
requeued none = none
requeued (some r) = some (record r { status = queued; next_run_at = none })

find-promoted :
    (x id : Text) (now : ℕ) (rs : List JobRow)
    → find x (update id always (set_promoted now) rs)
      ≡ (if x === id then requeued (find x rs) else find x rs)
unfolding find update set_promoted
find-promoted x id now [] = ground arith
find-promoted x id now (r ∷ rs) =
    ground (arith, ===_iff x id, ===_iff r.id id, ===_iff r.id x, find-promoted x id now rs)

contains-one : (x id : Text) → contains x (id ∷ []) ≡ (x === id)
unfolding contains
contains-one x id = ground arith

-- The ids one after the other: `f` is what a promotion makes of a value.
promoted_both :
    {A : Type 0} (f : A → A) (x id : Text) (ids : List Text) (a : A)
    → contains id ids ≡ false
    → (if contains x ids
        then f (if contains x (id ∷ []) then f a else a)
        else if contains x (id ∷ [])
        then f a
        else a)
      ≡ (if contains x (id ∷ ids) then f a else a)
unfolding contains
promoted_both f x id ids a fresh = elim (Bool-cases (x === id)) [
  | inl e ↦
      let same : id ≡ x = sym ((===_iff x id).0 e) in
      let fresh' : contains x ids ≡ false = subst (λ y. contains y ids ≡ false) same fresh in
      rw (e, fresh') refl
  | inr e ↦ rw e refl
]

apart-member :
    (id y : Text) (ys : List Text)
    → contains id (y ∷ ys) ≡ false
    → ((y === id) ≡ false) × (contains id ys ≡ false)
unfolding contains
apart-member id y ys h = (ground (arith, h, ===_iff id y, ===_iff y id), ground (arith, h))

module _ (R : Redis) where
  abbrev Parked : R.Delayed → Text → Type 0
  Parked d x = is_some (R.zscore d x) ≡ true

  -- What becomes of the queues and the rows when `ids` are promoted in their order.
  abbrev pub Promoted : List Text → World R → World R → Type 0
  Promoted ids s t =
      (R.lrange t.lists pending ≡ reverse_aux ids (R.lrange s.lists pending))
      × ((x : Text)
          → R.zscore t.delayed x ≡ (if contains x ids then none else R.zscore s.delayed x))
      × ((x : Text)
          → find x t.db.jobs
            ≡ (if contains x ids then requeued (find x s.db.jobs) else find x s.db.jobs))
      × (t.db.effects ≡ s.db.effects)
      × (t.clock ≡ s.clock)

  zscore-taken :
      (d : R.Delayed) (id x : Text)
      → R.zscore (R.zrem d id) x ≡ (if contains x (id ∷ []) then none else R.zscore d x)
  unfolding contains
  zscore-taken d id x = R.zscore-zrem d id x ∙ ground (arith, ===_iff id x, ===_iff x id)

  promote_one-Promoted :
      (id : Text) (s : World R)
      → Parked s.delayed id
      → (result (promote_one R id) s ≡ 1) × Promoted (id ∷ []) s (final (promote_one R id) s)
  unfolding promote_one promote_claimed
  promote_one-Promoted id s h =
      let s' : World R = record s { delayed = R.zrem s.delayed id } in
      subst
        (λ b.
          (result (promote_claimed R id b) s' ≡ 1)
          × Promoted (id ∷ []) s (final (promote_claimed R id b) s'))
        (sym h)
        (
          refl,
          (
            rw (R.lrange-lpush s.lists pending id pending, ===_refl pending) refl,
            zscore-taken s.delayed id,
            λ x. rw (contains-one x id) (find-promoted x id s.clock s.db.jobs),
            refl,
            refl,
          ),
        )

  Promoted-more :
      (id : Text) (ids : List Text) (s u t : World R)
      → contains id ids ≡ false
      → Promoted (id ∷ []) s u
      → Promoted ids u t
      → Promoted (id ∷ ids) s t
  Promoted-more id ids s u t fresh one more =
      let (pushed, left, rows, effects, clock) = one in
      let (pushed', left', rows', effects', clock') = more in
      (
        pushed' ∙ ap (reverse_aux ids) pushed,
        λ x.
            left' x
            ∙ ap (λ z. if contains x ids then none else z) (left x)
            ∙ promoted_both (λ _. none) x id ids (R.zscore s.delayed x) fresh,
        λ x.
            rows' x
            ∙ ap (λ o. if contains x ids then requeued o else o) (rows x)
            ∙ promoted_both requeued x id ids (find x s.db.jobs) fresh,
        effects' ∙ effects,
        clock' ∙ clock,
      )

  still-Parked :
      (id : Text) (s u : World R)
      → Promoted (id ∷ []) s u
      → (ys : List Text) → contains id ys ≡ false
      → All (Parked s.delayed) ys
      → All (Parked u.delayed) ys
  still-Parked id s u p [] fresh h = tt
  still-Parked id s u p (y ∷ ys) fresh h =
      let (other, fresh') = apart-member id y ys fresh in
      (rw (p.1 y, contains-one y id, other) h.0, still-Parked id s u p ys fresh' h.1)

  promote_each-Promoted :
      (ids : List Text) (promoted : ℕ) (s : World R)
      → IsDistinct ids
      → All (Parked s.delayed) ids
      → (result (promote_each R ids promoted) s ≡ promoted + length ids)
        × Promoted ids s (final (promote_each R ids promoted) s)
  unfolding promote_each contains
  promote_each-Promoted [] promoted s d h = (omega arith, (refl, λ x. refl, λ x. refl, refl, refl))
  promote_each-Promoted (id ∷ ids) promoted s d h =
      let p = promote_one R id in
      let next = λ (moved : ℕ). promote_each R ids (promoted + moved) in
      let (one, first) = promote_one-Promoted id s h.0 in
      let u = final p s in
      let (same, rest) =
        promote_each-Promoted ids (promoted + 1) u d.1 (still-Parked id s u first ids d.0 h.1) in
      (
        result-bind p next s ∙ ap (λ n. result (next n) u) one ∙ same ∙ omega arith,
        subst (Promoted (id ∷ ids) s) (sym (final-bind p next s ∙ ap (λ n. final (next n) u) one))
            (Promoted-more id ids s u (final (promote_each R ids (promoted + 1)) u) d.0 first rest),
      )

  due-Parked :
      (d : R.Delayed) (n : ℕ) (ids : List Text)
      → All (λ x. (m : ℕ) × (R.zscore d x ≡ some m) × (m ≤ n)) ids
      → All (Parked d) ids
  due-Parked d n ids =
      All-map (λ x. (m : ℕ) × (R.zscore d x ≡ some m) × (m ≤ n)) (Parked d) ids
        (λ x h. ap is_some h.1)

  -- Uninterrupted, where ZRANGEBYSCORE lists no id twice: promoteDue puts each id that it
  -- lists at the head of the pending list, one after the other, takes exactly these ids out of
  -- the delayed set, makes the rows found under them queued with no next run and leaves those
  -- under other ids as they were, adds no effect, and returns their number.
  pub promote_due-Promoted :
      (s : World R)
      → IsDistinct (R.zrangebyscore s.delayed s.clock batch)
      → (result (promote_due R) s ≡ length (R.zrangebyscore s.delayed s.clock batch))
        × Promoted (R.zrangebyscore s.delayed s.clock batch) s (final (promote_due R) s)
  unfolding promote_due
  promote_due-Promoted s distinct =
      let due = R.zrangebyscore s.delayed s.clock batch in
      let (same, all) =
        promote_each-Promoted due 0 s distinct
          (due-Parked s.delayed s.clock due (R.zrangebyscore-due s.delayed s.clock batch)) in
      (same ∙ omega arith, all)
