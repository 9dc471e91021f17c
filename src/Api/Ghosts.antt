-- ===== src/Api/Ghosts.antt =====
-- src/api/index.ts: the routes that write, command by command, and the ids on the queues.
use queue_flow.Base.{
  if◌then◌else◌, Bool, true, false, ◌≡◌, refl, Option, none, some, Text, List, ap, subst, sym,
}
use queue_flow.Json.{Value}
use queue_flow.Keys.{pending}
use queue_flow.Types.Validate.{Url}
use queue_flow.Types.{JobRow, JobType, is_job_type}
use queue_flow.Store.Jobs.{
  Insert, inserted, key_conflict, id_conflict, insert_reply, insert_job, insert_when,
  find-returning,
}
use queue_flow.Store.Redis.{Redis}
use queue_flow.Store.World.{World, is_some}
use queue_flow.Store.Views.{HasRow, row-insert, row-append_self}
use queue_flow.Store.Known.{Keeps, Any, jobs-Known, update-Keeps, lpush-Known}
use queue_flow.Api.{
  new_row, after_insert, store_job, create_typed, create_job, after_replay, replay_read, as_printed,
  replay_job, is_dead, set_replayed,
}

insert_job-HasRow :
    (row : JobRow) (jobs : List JobRow)
    → insert_reply row jobs ≡ inserted
    → HasRow (insert_job row jobs) row.id
unfolding insert_job
insert_job-HasRow row jobs e =
    subst (λ r. HasRow (insert_when r row jobs) row.id) (sym e) (row-append_self row jobs)

module _ (R : Redis) (allow_private : Bool) (parse_url : Text → Option Url) where
  after_insert-Keeps :
      (id : Text) (key : Option Text) (reply : Insert) (s : World R)
      → (reply ≡ inserted → HasRow s.db.jobs id)
      → Keeps R (Any R) (after_insert R allow_private parse_url id key reply) s
  unfolding after_insert
  after_insert-Keeps id key inserted s h =
      λ t g i. (lpush-Known R t pending id (g id (h refl)) i, λ j x. x, tt)
  after_insert-Keeps id key key_conflict s h = λ t g i. (i, λ j x. x, tt)
  after_insert-Keeps id key id_conflict s h = tt

  store_job-Keeps :
      (id : Text) (key : Option Text) (type : JobType) (payload : Value) (invalid : Option Text)
      (s : World R)
      → Keeps R (Any R) (store_job R allow_private parse_url id key type payload invalid) s
  unfolding store_job new_row
  store_job-Keeps id key type payload (some m) s = tt
  store_job-Keeps id key type payload none s = λ t g i. (
    jobs-Known R t _ (row-insert (row t) t.db.jobs) i,
    row-insert (row t) t.db.jobs,
    after_insert-Keeps id key (insert_reply (row t) t.db.jobs) _
        (insert_job-HasRow (row t) t.db.jobs),
  )
    where
      row : World R → JobRow
      row t = new_row id type payload key t.clock

  create_typed-Keeps :
      (id : Text) (key : Option Text) (type payload : Value) (t : Option JobType) (s : World R)
      → Keeps R (Any R) (create_typed R allow_private parse_url id key type payload t) s
  unfolding create_typed
  create_typed-Keeps id key type payload none s = tt
  create_typed-Keeps id key type payload (some t) s = store_job-Keeps id key t payload _ s

  pub create_job-Keeps :
      (id : Text) (key : Option Text) (type payload : Value) (s : World R)
      → Keeps R (Any R) (create_job R allow_private parse_url id key type payload) s
  unfolding create_job
  create_job-Keeps id key type payload s =
      create_typed-Keeps id key type payload (is_job_type type) s

module _ (R : Redis) where
  after_replay-Keeps :
      (id : Text) (row : Option JobRow) (s : World R)
      → ((r : JobRow) → row ≡ some r → HasRow s.db.jobs id)
      → Keeps R (Any R) (after_replay R id id row) s
  unfolding after_replay
  after_replay-Keeps id none s h = λ t g i. (i, λ j x. x, tt)
  after_replay-Keeps id (some r) s h =
      λ t g i. (lpush-Known R t pending id (g id (h r refl)) i, λ j x. x, tt)

  replay_read-Keeps :
      (id : Text) (read : Bool) (s : World R)
      → Keeps R (Any R) (replay_read R id (if read then some id else none)) s
  unfolding replay_read set_replayed
  replay_read-Keeps id false s = tt
  replay_read-Keeps id true s = λ t g i.
      let (i', g') = update-Keeps R t id is_dead (set_replayed t.clock) (λ r. refl) i in
      (
        i',
        g',
        after_replay-Keeps id _ _ (λ r e.
            ap is_some
              (find-returning id is_dead (set_replayed t.clock) (λ r. refl) t.db.jobs r e)),
      )

  pub replay_job-Keeps :
      (reads_uuid : Text → Bool) (id : Text) (s : World R)
      → Keeps R (Any R) (replay_job R (as_printed reads_uuid) id) s
  unfolding replay_job
  replay_job-Keeps reads_uuid id s = replay_read-Keeps id (reads_uuid id) s
