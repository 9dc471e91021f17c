-- ===== src/Api/Sound.antt =====
-- src/api/index.ts: the routes that write, command by command, and the columns of the rows.
use queue_flow.Base.{Bool, Option, none, some, Text}
use queue_flow.Json.{Value}
use queue_flow.Types.Validate.{Url}
use queue_flow.Types.{JobRow, JobType, is_job_type}
use queue_flow.Store.Jobs.{Insert, inserted, key_conflict, id_conflict, insert_reply}
use queue_flow.Store.Redis.{Redis}
use queue_flow.Store.Rows.{IsSound, All-update, All-insert_job, KeepsRows}
use queue_flow.Api.{
  new_row, after_insert, store_job, create_typed, create_job, after_replay, replay_read, replay_job,
  is_dead, set_replayed,
}

module _ (R : Redis) (allow_private : Bool) (parse_url : Text → Option Url) where
  after_insert-Sound :
      (id : Text) (key : Option Text) (reply : Insert)
      → KeepsRows R (after_insert R allow_private parse_url id key reply)
  unfolding after_insert
  after_insert-Sound id key inserted = λ t. (λ i. i, tt)
  after_insert-Sound id key key_conflict = λ t. (λ i. i, tt)
  after_insert-Sound id key id_conflict = tt

  store_job-Sound :
      (id : Text) (key : Option Text) (type : JobType) (payload : Value) (invalid : Option Text)
      → KeepsRows R (store_job R allow_private parse_url id key type payload invalid)
  unfolding store_job new_row
  store_job-Sound id key type payload (some m) = tt
  store_job-Sound id key type payload none = λ t. (
    All-insert_job (IsSound t.db.effects) (new_row id type payload key t.clock) t.db.jobs tt,
    after_insert-Sound id key (insert_reply (new_row id type payload key t.clock) t.db.jobs),
  )

  create_typed-Sound :
      (id : Text) (key : Option Text) (type payload : Value) (t : Option JobType)
      → KeepsRows R (create_typed R allow_private parse_url id key type payload t)
  unfolding create_typed
  create_typed-Sound id key type payload none = tt
  create_typed-Sound id key type payload (some t) = store_job-Sound id key t payload _

  pub create_job-Sound :
      (id : Text) (key : Option Text) (type payload : Value)
      → KeepsRows R (create_job R allow_private parse_url id key type payload)
  unfolding create_job
  create_job-Sound id key type payload = create_typed-Sound id key type payload (is_job_type type)

module _ (R : Redis) where
  after_replay-Sound :
      (key id : Text) (row : Option JobRow) → KeepsRows R (after_replay R key id row)
  unfolding after_replay
  after_replay-Sound key id none = λ t. (λ i. i, tt)
  after_replay-Sound key id (some r) = λ t. (λ i. i, tt)

  replay_read-Sound : (id : Text) (read : Option Text) → KeepsRows R (replay_read R id read)
  unfolding replay_read set_replayed
  replay_read-Sound id none = tt
  replay_read-Sound id (some key) = λ t. (
    All-update (IsSound t.db.effects) key is_dead (set_replayed t.clock) t.db.jobs (λ r. tt),
    after_replay-Sound key id _,
  )

  pub replay_job-Sound :
      (uuid_in : Text → Option Text) (id : Text) → KeepsRows R (replay_job R uuid_in id)
  unfolding replay_job
  replay_job-Sound uuid_in id = replay_read-Sound id (uuid_in id)
