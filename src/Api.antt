-- ===== src/Api.antt =====
-- src/api/index.ts: the routes that write, POST /jobs and POST /jobs/:id/replay.
pub mod Ghosts
pub mod Sound
pub mod Outcomes
pub mod Reads
pub mod Health
pub mod Params
pub mod Listing
pub mod Auth
use queue_flow.Base.{
  ℕ, ◌≡◌, Bool, true, false, Option, none, some, List, [], ◌∷◌, ◌++◌, Text, codes, if◌then◌else◌,
}
use queue_flow.Json.{Value}
use queue_flow.Keys.{pending}
use queue_flow.Proc.{Proc, done, ◌>>=◌, ◌>>◌, command, read}
use queue_flow.Types.{JobRow, JobType, JobStatus, queued, dead, is_job_type, job_type_name}
use queue_flow.Types.Validate.{Url, validate_payload}
use queue_flow.Store.Jobs.{
  Insert, inserted, key_conflict, id_conflict, insert_reply, insert_job, find_key,
}
use queue_flow.Store.Redis.{Redis}
use queue_flow.Store.World.{World, select_job, update_job, lpush}

pub data Response : Type 0 where
  accepted : Text → Response  -- 202
  deduplicated : Text → JobStatus → Response  -- 200
  bad_request : Text → Response  -- 400
  unknown_type : Value → Response  -- 400
  not_found key_in_use server_error : Response  -- 404, 409, 500
  not_dead : JobStatus → Response  -- 409

-- A row as the INSERT makes it, with the defaults of db/schema.sql.
unfoldable pub new_row : Text → JobType → Value → Option Text → ℕ → JobRow
new_row id type payload key now = record {
  id = id;
  type = job_type_name type;
  payload = payload;
  status = queued;
  attempts = 0;
  max_attempts = 5;
  last_error = none;
  idempotency_key = key;
  created_at = now;
  started_at = none;
  completed_at = none;
  next_run_at = none;
  lease_id = none;
}

abbrev pub is_dead : JobRow → Bool
is_dead r = elim r.status [ dead ↦ true | _ ↦ false ]

unfoldable pub set_replayed : ℕ → JobRow → JobRow
set_replayed now r = record r {
  status = queued;
  attempts = 0;
  last_error = none;
  next_run_at = none;
  started_at = none;
  completed_at = none;
}

module _ (R : Redis) (allow_private : Bool) (parse_url : Text → Option Url) where
  existing_job : Option JobRow → Response
  existing_job none = key_in_use
  existing_job (some first) = deduplicated first.id first.status

  after_insert : Text → Option Text → Insert → Proc (World R) Response
  unfolding existing_job
  after_insert id key inserted = lpush R pending id >> done (accepted id)
  after_insert id key key_conflict = do
    first ← read (λ w. find_key key w.db.jobs)
    done (existing_job first)
  after_insert id key id_conflict = done server_error

  store_job : Text → Option Text → JobType → Value → Option Text → Proc (World R) Response
  unfolding after_insert
  store_job id key type payload (some invalid) = done (bad_request invalid)
  store_job id key type payload none = do
    reply ←
        command
          (λ w. record w {
            db = record w.db { jobs = insert_job (new_row id type payload key w.clock) w.db.jobs };
          })
          (λ w. insert_reply (new_row id type payload key w.clock) w.db.jobs)
    after_insert id key reply

  create_typed : Text → Option Text → Value → Value → Option JobType → Proc (World R) Response
  unfolding store_job
  create_typed id key type payload none = done (unknown_type type)
  create_typed id key type payload (some t) =
      store_job id key t payload (validate_payload allow_private parse_url t payload)

  -- POST /jobs with the body `{ type, payload }`; `id` is what randomUUID() returns.
  unfoldable pub create_job : Text → Option Text → Value → Value → Proc (World R) Response
  unfolding create_typed
  create_job id key type payload = create_typed id key type payload (is_job_type type)

-- Ids in requests that are spelled as Postgres prints them.
abbrev pub as_printed : (Text → Bool) → Text → Option Text
as_printed reads_uuid id = if reads_uuid id then some id else none

module _ (R : Redis) where
  not_replayed : Option JobRow → Response
  not_replayed none = not_found
  not_replayed (some row) = not_dead row.status

  -- `key` is the id that Postgres reads from the text `id`, which is what goes on the list.
  unfoldable pub after_replay : Text → Text → Option JobRow → Proc (World R) Response
  unfolding not_replayed
  after_replay key id none = do existing ← select_job R key; done (not_replayed existing)
  after_replay key id (some row) = lpush R pending id >> done (accepted id)

  -- The UPDATE fails on an id that Postgres does not read as a uuid.
  unfoldable pub replay_read : Text → Option Text → Proc (World R) Response
  unfolding after_replay
  replay_read id none = done server_error
  replay_read id (some key) = do
    row ← update_job R key is_dead set_replayed
    after_replay key id row

  -- POST /jobs/:id/replay
  unfoldable pub replay_job : (Text → Option Text) → Text → Proc (World R) Response
  unfolding replay_read
  replay_job uuid_in id = replay_read id (uuid_in id)
