-- ===== src/Scheduler/Ghosts.antt =====
-- src/scheduler/index.ts: promoteDue, command by command, and the ids on the queues.
use queue_flow.Base.{
  ℕ, ◌+◌, ◌≤◌, ◌≡◌, refl, inl, inr, Bool, true, false, some, List, [], ◌∷◌, Text, All, All-map,
}
use queue_flow.Keys.{pending}
use queue_flow.Store.Redis.{Redis}
use queue_flow.Store.World.{World}
use queue_flow.Store.Views.{HasRow}
use queue_flow.Store.Known.{Known, Keeps, Any, Keeps-then, update-Keeps, lpush-Known, zrem-Known}
use queue_flow.Scheduler.{
  promote_claimed, promote_one, promote_each, promote_due, always, set_promoted, batch,
}

module _ (R : Redis) where
  promote_claimed-Keeps :
      (id : Text) (claimed : Bool) (s : World R)
      → HasRow s.db.jobs id
      → Keeps R (Any R) (promote_claimed R id claimed) s
  unfolding promote_claimed set_promoted
  promote_claimed-Keeps id false s h = tt
  promote_claimed-Keeps id true s h = λ t g i.
      let (i', g') = update-Keeps R t id always (set_promoted t.clock) (λ r. refl) i in
      (
        i',
        g',
        λ t' h' i''. (lpush-Known R t' pending id (h' id (g' id (g id h))) i'', λ j x. x, tt),
      )

  promote_one-Keeps :
      (id : Text) (s : World R) → HasRow s.db.jobs id → Keeps R (Any R) (promote_one R id) s
  unfolding promote_one
  promote_one-Keeps id s h t g i =
      (zrem-Known R t id i, λ j x. x, promote_claimed-Keeps id _ _ (g id h))

  promote_each-Keeps :
      (ids : List Text) (promoted : ℕ) (s : World R)
      → All (HasRow s.db.jobs) ids
      → Keeps R (Any R) (promote_each R ids promoted) s
  unfolding promote_each
  promote_each-Keeps [] promoted s h = tt
  promote_each-Keeps (id ∷ ids) promoted s h =
      Keeps-then R (λ w. All (HasRow w.db.jobs) ids) (promote_one R id) _ s
        (λ a b g. All-map (HasRow a.db.jobs) (HasRow b.db.jobs) ids g) h.1
        (promote_one-Keeps id s h.0) (λ moved t h'. promote_each-Keeps ids (promoted + moved) t h')

  due-HasRow :
      (w : World R) (n : ℕ) (ids : List Text)
      → Known R w
      → All (λ x. (m : ℕ) × (R.zscore w.delayed x ≡ some m) × (m ≤ n)) ids
      → All (HasRow w.db.jobs) ids
  due-HasRow w n ids i =
      All-map (λ x. (m : ℕ) × (R.zscore w.delayed x ≡ some m) × (m ≤ n)) (HasRow w.db.jobs) ids
        (λ x h. scored x h.0 h.1)
    where
      scored : (x : Text) (m : ℕ) → R.zscore w.delayed x ≡ some m → HasRow w.db.jobs x
      scored x m e = elim (i.delayed x) [ inl gone ↦ cc | inr r ↦ r ]

  pub promote_due-Keeps : (s : World R) → Keeps R (Any R) (promote_due R) s
  unfolding promote_due
  promote_due-Keeps s t g i = (
    i,
    λ j x. x,
    λ t' g' i'. (
      i',
      λ j x. x,
      promote_each-Keeps (R.zrangebyscore t'.delayed t.clock batch) 0 t'
          (due-HasRow t' t.clock _ i' (R.zrangebyscore-due t'.delayed t.clock batch)),
    ),
  )
