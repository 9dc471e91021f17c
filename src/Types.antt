-- ===== src/Types.antt =====
-- src/shared/types.ts: job types, states, the row and the record, and the shape of an id.
pub mod Validate
use queue_flow.Base.{
  ℕ, Bool, true, false, ◌&&◌, ◌||◌, Option, none, some, List, [], ◌∷◌, ◌++◌, Text, codes, ◌===◌,
  leb, ◌==◌,
}
use queue_flow.Json.{Value, str}

pub data JobType : Type 0 where
  sleep always_fail deliver_webhook : JobType

abbrev pub job_type_name : JobType → Text
job_type_name sleep = codes "sleep"
job_type_name always_fail = codes "always_fail"
job_type_name deliver_webhook = codes "deliver_webhook"

abbrev pub job_types : List JobType
job_types = sleep ∷ always_fail ∷ deliver_webhook ∷ []

pub data JobStatus : Type 0 where
  queued running retrying succeeded failed dead : JobStatus

abbrev pub job_statuses : List JobStatus
job_statuses = queued ∷ running ∷ retrying ∷ succeeded ∷ failed ∷ dead ∷ []

abbrev pub job_status_name : JobStatus → Text
job_status_name queued = codes "queued"
job_status_name running = codes "running"
job_status_name retrying = codes "retrying"
job_status_name succeeded = codes "succeeded"
job_status_name failed = codes "failed"
job_status_name dead = codes "dead"

-- A row of the table `jobs`. The CHECK constraint of db/schema.sql makes `status` one of the six;
-- times are milliseconds.
pub record JobRow : Type 0 where
  pub id : Text
  pub type : Text
  pub payload : Value
  pub status : JobStatus
  pub attempts : ℕ
  pub max_attempts : ℕ
  pub last_error : Option Text
  pub idempotency_key : Option Text
  pub created_at : ℕ
  pub started_at : Option ℕ
  pub completed_at : Option ℕ
  pub next_run_at : Option ℕ
  pub lease_id : Option Text

pub record JobRecord : Type 0 where
  pub id : Text
  pub type : Text
  pub payload : Value
  pub status : JobStatus
  pub attempts : ℕ
  pub max_attempts : ℕ
  pub last_error : Option Text
  pub idempotency_key : Option Text
  pub created_at : ℕ
  pub started_at : Option ℕ
  pub completed_at : Option ℕ
  pub next_run_at : Option ℕ
  pub lease_id : Option Text

unfoldable pub row_to_job : JobRow → JobRecord
row_to_job row = record {
  id = row.id;
  type = row.type;
  payload = row.payload;
  status = row.status;
  attempts = row.attempts;
  max_attempts = row.max_attempts;
  last_error = row.last_error;
  idempotency_key = row.idempotency_key;
  created_at = row.created_at;
  started_at = row.started_at;
  completed_at = row.completed_at;
  next_run_at = row.next_run_at;
  lease_id = row.lease_id;
}

-- `(JOB_TYPES as readonly string[]).includes(value)`, with the type found.
unfoldable pub find_job_type : List JobType → Text → Option JobType
find_job_type [] value = none
find_job_type (t ∷ ts) value = elim (job_type_name t === value) [
  | true ↦ some t
  | false ↦ find_job_type ts value
]

unfoldable pub is_job_type : Value → Option JobType
unfolding find_job_type ◌===◌
is_job_type (str value) = find_job_type job_types value
is_job_type _ = none

-- The character classes of UUID_RE, which ignores case.
pub data UuidClass : Type 0 where
  hex dash version variant : UuidClass

unfoldable pub is_digit : ℕ → Bool
is_digit c = leb b'0' c && leb c b'9'

is_hex : ℕ → Bool
unfolding is_digit
is_hex c = is_digit c || (leb b'a' c && leb c b'f') || (leb b'A' c && leb c b'F')

is_variant : ℕ → Bool
is_variant c = c == b'8' || c == b'9' || c == b'a' || c == b'b' || c == b'A' || c == b'B'

pub fits : UuidClass → ℕ → Bool
unfolding is_hex is_variant
fits hex c = is_hex c
fits dash c = c == b'-'
fits version c = leb b'1' c && leb c b'8'
fits variant c = is_variant c

abbrev hex4 : List UuidClass
hex4 = hex ∷ hex ∷ hex ∷ hex ∷ []

abbrev pub uuid_re : List UuidClass
uuid_re =
    hex4
    ++ hex4
    ++ (dash ∷ hex4)
    ++ (dash ∷ version ∷ hex ∷ hex ∷ hex ∷ [])
    ++ (dash ∷ variant ∷ hex ∷ hex ∷ hex ∷ [])
    ++ (dash ∷ hex4)
    ++ hex4
    ++ hex4

pub matches : List UuidClass → Text → Bool
unfolding fits
matches [] [] = true
matches [] (c ∷ cs) = false
matches (k ∷ ks) [] = false
matches (k ∷ ks) (c ∷ cs) = fits k c && matches ks cs

unfoldable pub is_uuid : Text → Bool
unfolding matches
is_uuid value = matches uuid_re value
