-- ===== src/Store/Rows.antt =====
-- What the columns of a row say together, and the statements of the code against it.
use queue_flow.Base.{
  ◌≡◌, inl, inr, Bool, true, false, ◌||◌, ◌&&◌, Option, List, [], ◌∷◌, Text, ◌===◌, ===_iff,
  if◌then◌else◌, All, All-append, All-map, arith, Bool-cases,
}
use queue_flow.Proc.{Proc, done, step, ◌>>=◌, Safe, Always, Always-bind}
use queue_flow.Types.{JobRow, JobStatus, queued, running, retrying, succeeded, failed, dead}
use queue_flow.Store.Jobs.{
  Effect, update, update_any, insert_job, insert_when, insert_reply, Insert, inserted, key_conflict,
  id_conflict,
}
use queue_flow.Store.Redis.{Redis, contains}
use queue_flow.Store.World.{World, is_some}

unfoldable pub has_effect : Text → List Effect → Bool
has_effect id [] = false
has_effect id (e ∷ es) = (e.job_id === id) || has_effect id es

abbrev pub Given {ℓ} : {A : Type ℓ} → Option A → Type 0
Given o = is_some o ≡ true

-- A job that runs has a lease and a start, one that waits for a retry has an error and a time, one
-- that is dead an error and an end, and one that succeeded an end and an effect. None is `failed`.
abbrev pub SoundAs : JobStatus → List Effect → JobRow → Type 0
SoundAs queued es r = Unit {0}
SoundAs running es r = Given r.lease_id × Given r.started_at
SoundAs retrying es r = Given r.last_error × Given r.next_run_at
SoundAs succeeded es r = Given r.completed_at × (has_effect r.id es ≡ true)
SoundAs dead es r = Given r.last_error × Given r.completed_at
SoundAs failed es r = ⊥

abbrev pub IsSound : List Effect → JobRow → Type 0
IsSound es r = SoundAs r.status es r

pub All-update :
    (P : JobRow → Type 0) (id : Text) (guard : JobRow → Bool) (set : JobRow → JobRow)
    (jobs : List JobRow)
    → ((r : JobRow) → P (set r))
    → All P jobs
    → All P (update id guard set jobs)
unfolding update
All-update P id guard set [] s h = tt
All-update P id guard set (r ∷ rs) s h = elim (Bool-cases (r.id === id)) [
  | inr other ↦ rw (other, update) (h.0, All-update P id guard set rs s h.1)
  | inl same ↦
      rw (same, update)
        (elim (Bool-cases (guard r)) [
          | inl hit ↦ rw hit (s r, h.1)
          | inr miss ↦ rw miss (h.0, h.1)
        ])
]

pub All-update_any :
    (P : JobRow → Type 0) (ids : List Text) (guard : JobRow → Bool) (set : JobRow → JobRow)
    (jobs : List JobRow)
    → ((r : JobRow) → P (set r))
    → All P jobs
    → All P (update_any ids guard set jobs)
unfolding update_any
All-update_any P ids guard set [] s h = tt
All-update_any P ids guard set (r ∷ rs) s h = elim (Bool-cases (contains r.id ids && guard r)) [
  | inl hit ↦ rw (hit, update_any) (s r, All-update_any P ids guard set rs s h.1)
  | inr miss ↦ rw (miss, update_any) (h.0, All-update_any P ids guard set rs s h.1)
]

pub All-insert_job :
    (P : JobRow → Type 0) (row : JobRow) (jobs : List JobRow)
    → P row
    → All P jobs
    → All P (insert_job row jobs)
unfolding insert_job
All-insert_job P row jobs p h = by_reply (insert_reply row jobs)
  where
    by_reply : (reply : Insert) → All P (insert_when reply row jobs)
    by_reply inserted = All-append P jobs (row ∷ []) h (p, tt)
    by_reply key_conflict = h
    by_reply id_conflict = h

has_effect-more :
    (id : Text) (e : Effect) (es : List Effect)
    → has_effect id es ≡ true
    → has_effect id (e ∷ es) ≡ true
unfolding has_effect
has_effect-more id e es h = ground (arith, h)

SoundAs-more :
    (status : JobStatus) (es : List Effect) (e : Effect) (r : JobRow)
    → SoundAs status es r
    → SoundAs status (e ∷ es) r
SoundAs-more queued es e r h = tt
SoundAs-more running es e r h = h
SoundAs-more retrying es e r h = h
SoundAs-more succeeded es e r h = (h.0, has_effect-more r.id e es h.1)
SoundAs-more dead es e r h = h
SoundAs-more failed es e r h = absurd h

-- One more effect leaves sound rows sound.
pub IsSound-more : (es : List Effect) (e : Effect) (r : JobRow) → IsSound es r → IsSound (e ∷ es) r
IsSound-more es e r h = SoundAs-more r.status es e r h

pub update-succeeds :
    (e : Effect) (es : List Effect) (guard : JobRow → Bool) (set : JobRow → JobRow)
    (jobs : List JobRow)
    → ((r : JobRow) → ((e.job_id === r.id) ≡ true) → IsSound (e ∷ es) (set r))
    → All (IsSound es) jobs
    → All (IsSound (e ∷ es)) (update e.job_id guard set jobs)
unfolding update
update-succeeds e es guard set [] s h = tt
update-succeeds e es guard set (r ∷ rs) s h = elim (Bool-cases (r.id === e.job_id)) [
  | inr other ↦
      rw (other, update) (IsSound-more es e r h.0, update-succeeds e es guard set rs s h.1)
  | inl same ↦
      rw (same, update)
        (elim (Bool-cases (guard r)) [
          | inl hit ↦ rw hit (
            s r (ground (arith, same, ===_iff r.id e.job_id, ===_iff e.job_id r.id)),
            All-map (IsSound es) (IsSound (e ∷ es)) rs (IsSound-more es e) h.1,
          )
          | inr miss ↦ rw miss (
            IsSound-more es e r h.0,
            All-map (IsSound es) (IsSound (e ∷ es)) rs (IsSound-more es e) h.1,
          )
        ])
]

module _ (R : Redis) where
  -- Every row of the table is sound.
  abbrev pub Rows : World R → Type 0
  Rows w = All (IsSound w.db.effects) w.db.jobs

  abbrev pub KeepsRows : {A : Type 0} → Proc (World R) A → Type 0
  KeepsRows p = Always (λ v w. Rows v → Rows w) p

  -- Met in any state, such a process is safe.
  pub KeepsRows-Safe :
      {A : Type 0} (p : Proc (World R) A) (s : World R)
      → KeepsRows p
      → Safe Rows (λ _ _. Unit {0}) (λ _ _. Unit {0}) p s
  KeepsRows-Safe (done a) s h = tt
  KeepsRows-Safe (step u k) s h = λ t r i. ((h t).0 i, tt, KeepsRows-Safe (k t) (u t) (h t).1)

  pub KeepsRows-bind :
      {A B : Type 0} (p : Proc (World R) A) (f : A → Proc (World R) B)
      → KeepsRows p
      → ((a : A) → KeepsRows (f a))
      → KeepsRows (p >>= f)
  KeepsRows-bind p f h hf = Always-bind (λ v w. Rows v → Rows w) p f h hf

  pub KeepsRows-if :
      {A : Type 0} (b : Bool) (p q : Proc (World R) A)
      → KeepsRows p
      → KeepsRows q
      → KeepsRows (if b then p else q)
  KeepsRows-if true p q hp hq = hp
  KeepsRows-if false p q hp hq = hq
