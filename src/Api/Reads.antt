-- ===== src/Api/Reads.antt =====
-- src/api/index.ts: the routes that read. What Promise.all reads for the workers is read here for
-- one worker after the other; the errors that /health catches are not modelled.
pub mod Workers
use queue_flow.Base.{
  ℕ, suc, ◌+◌, Bool, true, false, Option, none, some, List, [], ◌∷◌, ◌++◌, Text, ltb, ◌==◌,
  if◌then◌else◌, length,
}
use queue_flow.Keys.{
  pending, processing, alive, processing_pattern, alive_pattern, worker_id_from_alive_key,
  worker_id_from_processing_key,
}
use queue_flow.Proc.{Proc, done, ◌>>=◌, read}
use queue_flow.Types.{
  JobRecord, JobStatus, queued, running, retrying, succeeded, failed, dead, JobRow, row_to_job,
}
use queue_flow.Store.Redis.{Redis, contains}
use queue_flow.Store.World.{World, select_job, lrange, scan_keys}

-- `if (id !== null) ids.add(id)`
abbrev pub add_id : Option Text → List Text → List Text
add_id none ids = ids
add_id (some id) ids = if contains id ids then ids else ids ++ (id ∷ [])

pub add_ids : (Text → Option Text) → List Text → List Text → List Text
add_ids parse [] ids = ids
add_ids parse (key ∷ keys) ids = add_ids parse keys (add_id (parse key) ids)

-- The order of `sort()`: by code unit, a prefix first.
text_leb : Text → Text → Bool
text_leb [] t = true
text_leb (c ∷ cs) [] = false
text_leb (c ∷ cs) (d ∷ ds) =
    let rest = text_leb cs ds in if ltb c d then true else if c == d then rest else false

pub insert_text : Text → List Text → List Text
unfolding text_leb
insert_text x [] = x ∷ []
insert_text x (y ∷ ys) =
    let rest = insert_text x ys in if text_leb x y then x ∷ y ∷ ys else y ∷ rest

pub sort_texts : List Text → List Text
unfolding insert_text
sort_texts [] = []
sort_texts (x ∷ xs) = insert_text x (sort_texts xs)

unfoldable pub worker_ids : List Text → List Text → List Text
unfolding add_ids sort_texts
worker_ids alive_keys processing_keys = sort_texts (
    add_ids worker_id_from_processing_key processing_keys
      (add_ids worker_id_from_alive_key alive_keys []))

pub record WorkerReport : Type 0 where
  pub id : Text
  pub alive : Bool
  pub expires_in_seconds : Option ℕ
  pub holding : ℕ
  pub jobs : List Text

pub report_of : Text → ℕ → List Text → WorkerReport
report_of id ttl held = record {
  id = id;
  alive = ltb 0 ttl;
  expires_in_seconds = if ltb 0 ttl then some ttl else none;
  holding = length held;
  jobs = held;
}

pub record Health : Type 0 where
  pub pending : ℕ
  pub delayed : ℕ
  pub jobs : JobStatus → ℕ

pub same_status : JobStatus → JobStatus → Bool
same_status queued queued = true
same_status running running = true
same_status retrying retrying = true
same_status succeeded succeeded = true
same_status failed failed = true
same_status dead dead = true
same_status _ _ = false

-- `SELECT status, COUNT(*) FROM jobs GROUP BY status`; a status without rows has no entry there.
pub count_status : JobStatus → List JobRow → ℕ
unfolding same_status
count_status s [] = 0
count_status s (r ∷ rs) =
    let rest = count_status s rs in if same_status s r.status then suc rest else rest

pub data JobReply : Type 0 where
  job_found : JobRecord → JobReply  -- 200
  no_such_job query_failed : JobReply  -- 404, 500

found_record : Option JobRow → JobReply
found_record none = no_such_job
found_record (some row) = job_found (row_to_job row)

module _ (R : Redis) where
  -- The query fails on an id that Postgres does not read as a uuid.
  job_read : Option Text → Proc (World R) JobReply
  unfolding found_record
  job_read none = done query_failed
  job_read (some key) = do row ← select_job R key; done (found_record row)

  -- GET /jobs/:id
  pub get_job : (Text → Option Text) → Text → Proc (World R) JobReply
  unfolding job_read
  get_job uuid_in id = job_read (uuid_in id)

  report_each : List Text → List WorkerReport → Proc (World R) (List WorkerReport)
  unfolding report_of
  report_each [] workers = done workers
  report_each (id ∷ ids) workers = do
    ttl ← read (λ w. R.ttl w.beats w.clock (alive id))
    held ← lrange R (processing id)
    report_each ids (workers ++ (report_of id ttl held ∷ []))

  report_found : List Text → Option (List Text) → Proc (World R) (Option (List WorkerReport))
  unfolding report_each worker_ids
  report_found alive_keys none = done none
  report_found alive_keys (some processing_keys) = do
    workers ← report_each (worker_ids alive_keys processing_keys) []
    done (some workers)

  report_scanned : ℕ → Option (List Text) → Proc (World R) (Option (List WorkerReport))
  unfolding report_found scan_keys
  report_scanned fuel none = done none
  report_scanned fuel (some alive_keys) = do
    processing_keys ← scan_keys R fuel processing_pattern
    report_found alive_keys processing_keys

  -- GET /workers
  pub get_workers : ℕ → Proc (World R) (Option (List WorkerReport))
  unfolding report_scanned scan_keys
  get_workers fuel = do alive_keys ← scan_keys R fuel alive_pattern; report_scanned fuel alive_keys

  -- GET /health, where both stores answer.
  pub get_health : Proc (World R) Health
  unfolding count_status
  get_health = do
    waiting ← read (λ w. R.llen w.lists pending)
    parked ← read (λ w. R.zcard w.delayed)
    counts ← read (λ w. λ s. count_status s w.db.jobs)
    done (record { pending = waiting; delayed = parked; jobs = counts })
