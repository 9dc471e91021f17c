-- ===== src/Scheduler/Reaper.antt =====
-- src/scheduler/reaper.ts: jobs held by workers without a heartbeat, and rows that were never
-- queued. The `while (true)` loop and the SCAN loop take fuel; `none` means that it ran out.
pub mod Ghosts
pub mod Sound
pub mod Ends
pub mod Rescue
pub mod Orphans
pub mod Sweep
use queue_flow.Base.{
  ℕ, zero, suc, ◌+◌, ◌*◌, Bool, true, false, not, ◌&&◌, Option, none, some, List, [], ◌∷◌, ◌++◌,
  Text, codes, leb, ltb, take, if◌then◌else◌, ◌===◌,
}
use queue_flow.Keys.{pending, alive, processing_pattern, worker_id_from_processing_key}
use queue_flow.Proc.{Proc, done, ◌>>=◌, ◌>>◌, read}
use queue_flow.Types.{
  JobRow, JobStatus, queued, running, retrying, succeeded, failed, dead, is_uuid,
}
use queue_flow.Worker.{set_dead}
use queue_flow.Store.Redis.{Redis, contains}
use queue_flow.Store.World.{
  World, select_job, update_job, lindex_last, lrem_last, lmove_right, lrange, rpush, key_exists,
  scan_keys,
}

abbrev pub batch : ℕ
batch = 100

abbrev always : JobRow → Bool
always r = true

-- `["succeeded", "dead", "failed", "retrying"].includes(row.status)`
unfoldable pub is_handled : JobStatus → Bool
is_handled queued = false
is_handled running = false
is_handled retrying = true
is_handled succeeded = true
is_handled failed = true
is_handled dead = true

unfoldable pub set_rescued : ℕ → JobRow → JobRow
set_rescued now r = record r { status = queued; started_at = none }

abbrev stopped_message : Text → Text
stopped_message worker_id =
    codes "worker " ++ (worker_id ++ codes " stopped responding while holding this job")

abbrev is_queued : JobStatus → Bool
is_queued queued = true
is_queued _ = false

-- `ORDER BY created_at`
insert_by_age : JobRow → List JobRow → List JobRow
insert_by_age r [] = r ∷ []
insert_by_age r (x ∷ xs) =
    if leb r.created_at x.created_at then r ∷ x ∷ xs else x ∷ insert_by_age r xs

-- `WHERE status = 'queued' AND created_at < now() - make_interval(secs => $1)`, sorted.
pub orphan_rows : ℕ → ℕ → List JobRow → List JobRow
orphan_rows age now [] = []
orphan_rows age now (r ∷ rs) =
    let rest = orphan_rows age now rs in
    if is_queued r.status && ltb (r.created_at + age * 1000) now then insert_by_age r rest else rest

pub ids : List JobRow → List Text
ids [] = []
ids (r ∷ rs) = r.id ∷ ids rs

module _ (R : Redis) where
  -- One turn of the loop: `none` breaks, a number is added to `reaped`.
  reap_row : Text → Text → Text → Option JobRow → Proc (World R) (Option ℕ)
  reap_row key worker_id id none = lrem_last R key id >> done (some 0)
  reap_row key worker_id id (some row) =
      if is_handled row.status
      then lrem_last R key id >> done (some 0)
      else if leb row.max_attempts row.attempts
      then update_job R id always (set_dead (stopped_message worker_id))
        >> lrem_last R key id
        >> done (some 1)
      else update_job R id always set_rescued >> lmove_right R key pending >> done (some 1)

  reap_id : Text → Text → Option Text → Proc (World R) (Option ℕ)
  unfolding reap_row
  reap_id key worker_id none = done none
  reap_id key worker_id (some id) =
      if not (is_uuid id)
      then lrem_last R key id >> done (some 0)
      else select_job R id >>= reap_row key worker_id id

  pub reap_entry : Text → Text → Proc (World R) (Option ℕ)
  unfolding reap_id
  reap_entry key worker_id = lindex_last R key >>= reap_id key worker_id

  unfoldable pub reap_worker : ℕ → Text → Text → ℕ → Proc (World R) (Option ℕ)
  unfolding reap_entry
  reap_worker zero key worker_id reaped = done none
  reap_worker (suc fuel) key worker_id reaped = do
    turn ← reap_entry key worker_id
    elim turn [ none ↦ done (some reaped) | some n ↦ reap_worker fuel key worker_id (reaped + n) ]

  -- The list of a worker that is alive is left alone.
  unfoldable pub reap_owner : ℕ → Text → Text → Bool → Proc (World R) (Option ℕ)
  unfolding reap_worker
  reap_owner fuel key worker_id true = done (some 0)
  reap_owner fuel key worker_id false = reap_worker fuel key worker_id 0

  unfoldable pub reap_key : ℕ → Text → Option Text → Proc (World R) (Option ℕ)
  unfolding reap_owner
  reap_key fuel key none = done (some 0)
  reap_key fuel key (some worker_id) =
      key_exists R (alive worker_id) >>= reap_owner fuel key worker_id

  reap_keys : ℕ → List Text → ℕ → Proc (World R) (Option ℕ)
  unfolding reap_key
  reap_keys fuel [] reaped = done (some reaped)
  reap_keys fuel (key ∷ keys) reaped = do
    turn ← reap_key fuel key (worker_id_from_processing_key key)
    elim turn [ none ↦ done none | some n ↦ reap_keys fuel keys (reaped + n) ]

  reap_found : ℕ → Option (List Text) → Proc (World R) (Option ℕ)
  unfolding reap_keys
  reap_found fuel none = done none
  reap_found fuel (some keys) = reap_keys fuel keys 0

  unfoldable pub reap_dead : ℕ → Proc (World R) (Option ℕ)
  unfolding reap_found scan_keys
  reap_dead fuel = scan_keys R fuel processing_pattern >>= reap_found fuel

  unfoldable pub select_orphans : ℕ → Proc (World R) (List Text)
  unfolding orphan_rows insert_by_age ids
  select_orphans age = read (λ w. ids (take batch (orphan_rows age w.clock w.db.jobs)))

  held_by_keys : List Text → List Text → Proc (World R) (List Text)
  held_by_keys [] held = done held
  held_by_keys (key ∷ keys) held = do entries ← lrange R key; held_by_keys keys (held ++ entries)

  held_found : List Text → Option (List Text) → Proc (World R) (Option (List Text))
  unfolding held_by_keys
  held_found held none = done none
  held_found held (some keys) = held_by_keys keys held >>= λ all. done (some all)

  unfoldable pub ids_held_by_redis : ℕ → Proc (World R) (Option (List Text))
  unfolding held_found scan_keys
  ids_held_by_redis fuel = do
    held ← lrange R pending
    keys ← scan_keys R fuel processing_pattern
    held_found held keys

  requeue : List Text → List Text → ℕ → Proc (World R) ℕ
  requeue held [] requeued = done requeued
  requeue held (id ∷ candidates) requeued = elim (contains id held) [
    | true ↦ requeue held candidates requeued
    | false ↦ rpush R pending id >> requeue held candidates (requeued + 1)
  ]

  sweep_held : List Text → Option (List Text) → Proc (World R) (Option ℕ)
  unfolding requeue
  sweep_held candidates none = done none
  sweep_held candidates (some held) = requeue held candidates 0 >>= λ n. done (some n)

  sweep_candidates : ℕ → List Text → Proc (World R) (Option ℕ)
  unfolding sweep_held ids_held_by_redis
  sweep_candidates fuel [] = done (some 0)
  sweep_candidates fuel (id ∷ rest) = ids_held_by_redis fuel >>= sweep_held (id ∷ rest)

  unfoldable pub sweep_orphans : ℕ → ℕ → Proc (World R) (Option ℕ)
  unfolding select_orphans sweep_candidates
  sweep_orphans fuel age = select_orphans age >>= sweep_candidates fuel
