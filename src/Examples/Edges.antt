-- ===== src/Examples/Edges.antt =====
-- The results on the list of jobs, deliveries, signals, slots and the dashboard at concrete inputs.
use queue_flow.Base.{
  ℕ, ◌+◌, ◌≤◌, ◌≡◌, ◌↔◌, refl, true, false, Option, none, some, List, [], ◌∷◌, map, Text, codes,
  ◌===◌, arith,
}
use queue_flow.Json.{is_finite, is_at_most_zero, Number, Value, undefined, null}
use queue_flow.Types.{JobRow, JobRecord, queued, deliver_webhook, row_to_job}
use queue_flow.Types.Validate.{
  Url, blocked_target, is_http, to_lower_case, lower, ends_with, starts_with, validate_payload,
}
use queue_flow.Api.Listing.{walk, text_ltb, key_ltb, newer, sort_desc, keep, insert_desc}
use queue_flow.Api.Listing.Pages.{listed, walk-listed}
use queue_flow.Worker.Handlers.{Outside, responded, post, run_handler}
use queue_flow.Worker.Handlers.Webhook.{run_handler-webhook_iff}
use queue_flow.Worker.Slots.{moved, turn}
use queue_flow.Worker.Slots
use queue_flow.Worker.Slots.Bounded.{held, run-bounded}
use queue_flow.Semaphore.{Semaphore, new, in_flight}
use queue_flow.Shutdown.{signal, drained, exited}
use queue_flow.Shutdown
use queue_flow.Shutdown.Once.{IsClean, run-IsClean_iff}
use queue_flow.Receiver.{job_of, Request, plain, idempotent, get_deliveries, whole}
use queue_flow.Receiver.Once.{
  Sent, count_sent, is_sent_for, is_idempotent, count_new, serve, empty, post-once,
}
use queue_flow.Supervisor.{
  Child, api, worker, scheduler, code, sigterm, migrated, child_exit, serving, new_child, roles,
  has_running, same_role, was_signalled, run,
}
use queue_flow.Supervisor
use queue_flow.Supervisor.Crash.{has_exit, exits, run-crash}
use queue_flow.Dashboard.Form.{
  IsReachable, check_parsed, check_wait, is_refused_host, is_172_private, is_16_to_31, or_empty,
  or_undefined, Inputs, check, build_payload, check-accepted,
}

abbrev listed_row : Text → ℕ → JobRow
listed_row id created_at = record {
  id = id;
  type = codes "deliver_webhook";
  payload = null;
  status = queued;
  attempts = 0;
  max_attempts = 5;
  last_error = none;
  idempotency_key = none;
  created_at = created_at;
  started_at = none;
  completed_at = none;
  next_run_at = none;
  lease_id = none;
}

abbrev three_rows : List JobRow
three_rows = listed_row (codes "a") 5 ∷ listed_row (codes "b") 9 ∷ listed_row (codes "c") 5 ∷ []

walk-listed_example :
    walk (λ t. t) none 2 three_rows 4 none
    ≡ some (map row_to_job (listed (λ t. t) none 2 three_rows))
unfolding ◌===◌ text_ltb key_ltb newer sort_desc keep insert_desc
walk-listed_example =
    walk-listed (λ t. t) none 2 three_rows (omega arith)
      ((refl, (refl, tt)), ((refl, tt), (tt, tt))) (refl, (refl, (refl, tt))) 4 (ground arith)

abbrev outside : Outside
outside = record {
  fetch = λ url id attempt body timeout. responded 204 none;
  show_other = λ v. [];
  elapsed_ms = 12;
  type_error = codes "no handler";
}

abbrev webhook_job : JobRecord
webhook_job = row_to_job (listed_row (codes "a") 5)

run_handler-webhook_example : (run_handler outside webhook_job ≡ none) ↔ (
    (status : ℕ) × (body : Option Text) × (post outside webhook_job ≡ responded status body)
    × (200 ≤ status)
    × (status ≤ 299))
unfolding row_to_job
run_handler-webhook_example = run_handler-webhook_iff outside webhook_job refl

run-IsClean_example :
    ((Shutdown.run Shutdown.start (signal ∷ drained ∷ [])).drains ≤ 1)
    × ((Shutdown.run Shutdown.start (signal ∷ drained ∷ [])).phase ≡ exited 0
        ↔ IsClean (signal ∷ drained ∷ []))
run-IsClean_example = run-IsClean_iff (signal ∷ drained ∷ [])

abbrev delivery : Text → Request
delivery id = record { job_id = some id; delay_ms = undefined }

abbrev no_number : Value → Number
no_number v = Number.nan

abbrev thrice : List Sent
thrice =
    (idempotent, delivery (codes "a"))
    ∷ (idempotent, delivery (codes "a"))
    ∷ (plain, delivery (codes "b"))
    ∷ []

post-once_example :
    (count_new no_number (codes "a") thrice empty ≡ 1)
    × ((get_deliveries (serve no_number thrice empty)).total ≡ 3)
unfolding count_sent is_sent_for is_idempotent job_of ◌===◌
post-once_example = post-once no_number (codes "a") thrice

abbrev all_up : List Child
all_up = map new_child roles

run-crash_example :
    (Supervisor.run
      (record { phase = serving; shutting_down = false; children = all_up })
      (exits ((worker, code 1) ∷ (api, code 0) ∷ (scheduler, code 0) ∷ []))).phase
    ≡ Supervisor.exited 1
unfolding new_child roles has_running same_role was_signalled has_exit
run-crash_example =
    run-crash worker (code 1) ((api, code 0) ∷ (scheduler, code 0) ∷ []) all_up refl refl
      (refl, (refl, (refl, tt)))

abbrev a_stop : List Supervisor.Event
a_stop =
    migrated (code 0)
    ∷ Supervisor.signal sigterm
    ∷ child_exit worker (code 0)
    ∷ child_exit api (code 0)
    ∷ child_exit scheduler (code 0)
    ∷ []

abbrev one_slot : Semaphore
one_slot = record { capacity = 1; available = 1; waiting = [] }

abbrev two_turns : List Slots.Event
two_turns = turn ∷ moved (some (codes "3f2c1a9e-0000-4000-8000-000000000001")) ∷ turn ∷ []

run-bounded_example :
    ((Slots.run (Slots.start one_slot) two_turns).executions ≤ 1)
    × (in_flight (Slots.run (Slots.start one_slot) two_turns).slots
        ≡ (Slots.run (Slots.start one_slot) two_turns).executions
          + held (Slots.run (Slots.start one_slot) two_turns).phase)
    × ((Slots.run (Slots.start one_slot) two_turns).phase ≡ Slots.parked
        → (Slots.run (Slots.start one_slot) two_turns).executions ≡ 1)
unfolding new
run-bounded_example = run-bounded 1 one_slot two_turns refl

abbrev inputs : Inputs
inputs = record {
  ms = none;
  message = none;
  url = some (codes "https://a.b/");
  timeout_ms = some (codes "1");
}

abbrev parsed_url : Text → Option Url
parsed_url t = some (record { protocol = codes "https:"; hostname = codes "a.b" })

check-accepted_example :
    validate_payload true parsed_url deliver_webhook
      (build_payload (λ v. whole 1) parsed_url deliver_webhook inputs)
    ≡ none
unfolding IsReachable blocked_target check check_parsed check_wait is_refused_host is_172_private
    is_16_to_31 is_http to_lower_case lower ends_with starts_with or_empty or_undefined is_finite
    is_at_most_zero whole ◌===◌
check-accepted_example =
    check-accepted (λ v. whole 1) parsed_url true deliver_webhook inputs (λ u e. refl) refl
