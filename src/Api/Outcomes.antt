-- ===== src/Api/Outcomes.antt =====
-- src/api/index.ts: what the routes that write answer and leave behind, when nothing interferes.
use queue_flow.Base.{
  ◌≡◌, ◌∙◌, refl, sym, ap, subst, Bool, true, false, Option, none, some, List, [], ◌∷◌, ◌++◌, Text,
  ===_refl, arith,
}
use queue_flow.Json.{Value}
use queue_flow.Keys.{pending}
use queue_flow.Proc.{Proc, result, final}
use queue_flow.Types.{JobRow, JobType, queued, dead, is_job_type}
use queue_flow.Types.Validate.{Url, validate_payload}
use queue_flow.Store.Jobs.{
  find, find_key, update, returning_hit, returning_miss, find-update_self, update-same,
  insert_reply, insert_when, insert_job, inserted, key_conflict,
}
use queue_flow.Store.Redis.{Redis}
use queue_flow.Store.World.{World}
use queue_flow.Api.{
  Response, accepted, deduplicated, not_dead, new_row, create_job, create_typed, store_job,
  after_insert, existing_job, is_dead, set_replayed, replay_job, replay_read, after_replay,
  not_replayed,
}

insert_reply-taken :
    (r first : JobRow) (rs : List JobRow)
    → find_key r.idempotency_key rs ≡ some first
    → insert_reply r rs ≡ key_conflict
unfolding insert_reply
insert_reply-taken r first rs e = ground (arith, e)

insert_reply-free :
    (r : JobRow) (rs : List JobRow)
    → find_key r.idempotency_key rs ≡ none
    → find r.id rs ≡ none
    → insert_reply r rs ≡ inserted
unfolding insert_reply
insert_reply-free r rs e f = ground (arith, e, f)

find-append_new :
    (r : JobRow) (rs : List JobRow) → find r.id rs ≡ none → find r.id (rs ++ (r ∷ [])) ≡ some r
unfolding find
find-append_new r [] e = ground (arith, ===_refl r.id)
find-append_new r (x ∷ rs) e = ground (arith, find-append_new r rs)

module _ (R : Redis) (allow_private : Bool) (parse_url : Text → Option Url) (w : World R)
    (id : Text) (key : Option Text) (type payload : Value) (t : JobType)
    (known : is_job_type type ≡ some t)
    (valid : validate_payload allow_private parse_url t payload ≡ none) where
  abbrev row : JobRow
  row = new_row id t payload key w.clock

  abbrev Both : (Response → World R → Type 0) → Proc (World R) Response → Type 0
  Both P p = P (result p w) (final p w)

  stored :
      (P : Response → World R → Type 0)
      → Both P (store_job R allow_private parse_url id key t payload none)
      → Both P (create_job R allow_private parse_url id key type payload)
  unfolding create_job create_typed
  stored P h =
      subst (λ o. Both P (create_typed R allow_private parse_url id key type payload o)) (sym known)
        (subst (λ o. Both P (store_job R allow_private parse_url id key t payload o)) (sym valid) h)

  -- Uninterrupted, for a known job type and an acceptable payload: POST /jobs with an
  -- idempotency key that some row has already answers with the id and the status of that row,
  -- and changes nothing: no row, no push.
  pub create_job-deduplicates :
      (first : JobRow)
      → find_key key w.db.jobs ≡ some first
      → (result (create_job R allow_private parse_url id key type payload) w
          ≡ deduplicated first.id first.status)
        × (final (create_job R allow_private parse_url id key type payload) w ≡ w)
  unfolding store_job after_insert insert_job insert_when existing_job new_row
  create_job-deduplicates first e =
      let q = insert_reply-taken row first w.db.jobs e in
      stored (λ a v. (a ≡ deduplicated first.id first.status) × (v ≡ w))
        (subst
          (λ o.
            (result (after_insert R allow_private parse_url id key o)
                (record w { db = record w.db { jobs = insert_when o row w.db.jobs } })
              ≡ deduplicated first.id first.status)
            × (final (after_insert R allow_private parse_url id key o)
                  (record w { db = record w.db { jobs = insert_when o row w.db.jobs } })
                ≡ w))
          (sym q) (ap (existing_job R allow_private parse_url) e, refl))

  abbrev Accepted : Response → World R → Type 0
  Accepted a v =
      (a ≡ accepted id)
      × (find id v.db.jobs ≡ some row)
      × (R.lrange v.lists pending ≡ id ∷ R.lrange w.lists pending)
      × (v.delayed ≡ w.delayed)

  pub create_job-accepts :
      find_key key w.db.jobs ≡ none
      → find id w.db.jobs ≡ none
      → Accepted
          (result (create_job R allow_private parse_url id key type payload) w)
          (final (create_job R allow_private parse_url id key type payload) w)
  unfolding store_job after_insert insert_job insert_when new_row
  create_job-accepts e f =
      let q = insert_reply-free row w.db.jobs e f in
      stored Accepted (
        subst
          (λ o.
            Accepted
              (result (after_insert R allow_private parse_url id key o)
                (record w { db = record w.db { jobs = insert_when o row w.db.jobs } }))
              (final (after_insert R allow_private parse_url id key o)
                (record w { db = record w.db { jobs = insert_when o row w.db.jobs } })))
          (sym q)
          (
            refl,
            find-append_new row w.db.jobs f,
            rw (R.lrange-lpush w.lists pending id pending, ===_refl pending) refl,
            refl,
          ))

module _ (R : Redis) (uuid_in : Text → Option Text) (w : World R) (id key : Text) (row : JobRow)
    (u : uuid_in id ≡ some key) (f : find key w.db.jobs ≡ some row) where
  abbrev reset : JobRow
  reset = set_replayed w.clock row

  abbrev Replayed : Response → World R → Type 0
  Replayed a v =
      (a ≡ accepted id)
      × (find key v.db.jobs ≡ some reset)
      × (R.lrange v.lists pending ≡ id ∷ R.lrange w.lists pending)

  abbrev replayed_world : World R
  replayed_world = record w {
    db = record w.db { jobs = update key is_dead (set_replayed w.clock) w.db.jobs };
  }

  pub replay_job-replays :
      is_dead row ≡ true
      → Replayed (result (replay_job R uuid_in id) w) (final (replay_job R uuid_in id) w)
  unfolding replay_job replay_read after_replay set_replayed
  replay_job-replays d =
      let hit = returning_hit key is_dead (set_replayed w.clock) w.db.jobs row f d in
      subst (λ b. Replayed (result (replay_read R id b) w) (final (replay_read R id b) w)) (sym u)
        (subst
          (λ o.
            Replayed (result (after_replay R key id o) replayed_world)
              (final (after_replay R key id o) replayed_world))
          (sym hit)
          (
            refl,
            find-update_self key is_dead (set_replayed w.clock) (λ r. refl) w.db.jobs row f d,
            rw (R.lrange-lpush w.lists pending id pending, ===_refl pending) refl,
          ))

  pub replay_job-refuses :
      is_dead row ≡ false
      → (result (replay_job R uuid_in id) w ≡ not_dead row.status)
        × (final (replay_job R uuid_in id) w ≡ w)
  unfolding replay_job replay_read after_replay not_replayed
  replay_job-refuses d =
      let miss = returning_miss key is_dead (set_replayed w.clock) w.db.jobs row f d in
      let same = update-same key is_dead (set_replayed w.clock) w.db.jobs miss in
      subst
        (λ b.
          (result (replay_read R id b) w ≡ not_dead row.status)
          × (final (replay_read R id b) w ≡ w))
        (sym u)
        (subst
          (λ o.
            (result (after_replay R key id o) replayed_world ≡ not_dead row.status)
            × (final (after_replay R key id o) replayed_world ≡ w))
          (sym miss)
          (
            ap (not_replayed R) (ap (find key) same ∙ f),
            ap (λ js. record w { db = record w.db { jobs = js } }) same,
          ))

-- A dead job that is replayed twice under an id that Postgres reads as its own, with nothing in
-- between: the first call answers accepted, the row is queued with no attempts, error, next run,
-- start or end, and the id as it was given stands once more at the head of the pending list; the
-- second call is refused as queued and changes nothing.
pub replay_job-once :
    (R : Redis) (uuid_in : Text → Option Text) (w : World R) (id key : Text) (row : JobRow)
    → uuid_in id ≡ some key
    → find key w.db.jobs ≡ some row
    → row.status ≡ dead
    → (result (replay_job R uuid_in id) w ≡ accepted id)
      × (find key (final (replay_job R uuid_in id) w).db.jobs
          ≡ some (record row {
            status = queued;
            attempts = 0;
            last_error = none;
            next_run_at = none;
            started_at = none;
            completed_at = none;
          }))
      × (R.lrange (final (replay_job R uuid_in id) w).lists pending ≡ id ∷ R.lrange w.lists pending)
      × (result (replay_job R uuid_in id) (final (replay_job R uuid_in id) w) ≡ not_dead queued)
      × (final (replay_job R uuid_in id) (final (replay_job R uuid_in id) w)
          ≡ final (replay_job R uuid_in id) w)
unfolding set_replayed
replay_job-once R uuid_in w id key row u f status =
    let d : is_dead row ≡ true = rw status refl in
    let (a, g, p) = replay_job-replays R uuid_in w id key row u f d in
    let (refused, same) =
      replay_job-refuses R uuid_in (final (replay_job R uuid_in id) w) id key
        (set_replayed w.clock row) u g refl in
    (a, g, p, refused, same)
