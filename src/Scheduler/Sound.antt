-- ===== src/Scheduler/Sound.antt =====
-- src/scheduler/index.ts: promoteDue, command by command, and the columns of the rows.
use queue_flow.Base.{ℕ, ◌+◌, Bool, true, false, List, [], ◌∷◌, Text}
use queue_flow.Store.Redis.{Redis}
use queue_flow.Store.Rows.{IsSound, All-update, KeepsRows, KeepsRows-bind}
use queue_flow.Scheduler.{
  promote_claimed, promote_one, promote_each, promote_due, always, set_promoted, batch,
}

module _ (R : Redis) where
  promote_claimed-Sound : (id : Text) (claimed : Bool) → KeepsRows R (promote_claimed R id claimed)
  unfolding promote_claimed set_promoted
  promote_claimed-Sound id false = tt
  promote_claimed-Sound id true = λ t. (
    All-update (IsSound t.db.effects) id always (set_promoted t.clock) t.db.jobs (λ r. tt),
    λ u. (λ i. i, tt),
  )

  promote_each-Sound : (ids : List Text) (promoted : ℕ) → KeepsRows R (promote_each R ids promoted)
  unfolding promote_each promote_one
  promote_each-Sound [] promoted = tt
  promote_each-Sound (id ∷ ids) promoted =
      KeepsRows-bind R (promote_one R id) (λ moved. promote_each R ids (promoted + moved))
        (λ t. (λ i. i, promote_claimed-Sound id _))
        (λ moved. promote_each-Sound ids (promoted + moved))

  pub promote_due-Sound : KeepsRows R (promote_due R)
  unfolding promote_due
  promote_due-Sound t =
      (λ i. i, λ u. (λ i. i, promote_each-Sound (R.zrangebyscore u.delayed t.clock batch) 0))
