-- ===== src/Examples/Worlds.antt =====
-- Jobs and worlds that the examples share.
use queue_flow.Base.{ℕ, Option, none, some, [], ◌∷◌, Text, codes}
use queue_flow.Json.{obj, field, end, str, Value}
use queue_flow.Types.{JobRow, JobStatus, running}
use queue_flow.Store.World.{World}
use queue_flow.Types.Validate.{Url}
use queue_flow.Examples.Memory.{memory}

abbrev pub job_at : JobStatus → ℕ → JobRow
job_at status attempts = record {
  id = codes "j1";
  type = codes "webhook";
  payload = Value.null;
  status = status;
  attempts = attempts;
  max_attempts = 5;
  last_error = none;
  idempotency_key = none;
  created_at = 100;
  started_at = none;
  completed_at = none;
  next_run_at = none;
  lease_id = none;
}

abbrev pub world_of : JobRow → World memory
world_of r = record {
  clock = 1000;
  db = record { jobs = r ∷ []; effects = [] };
  lists = λ key. [];
  delayed = [];
  beats = λ key. none;
}

abbrev pub claimed : JobRow
claimed = record (job_at running 1) { started_at = some 1000; lease_id = some (codes "l1") }

abbrev pub parse_any : Text → Option Url
parse_any t = some (record { protocol = codes "https:"; hostname = codes "example.org" })

abbrev pub webhook : Value
webhook = obj (field (codes "url") (str (codes "https://example.org/hook")) end)
