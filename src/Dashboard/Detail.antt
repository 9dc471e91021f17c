-- ===== src/Dashboard/Detail.antt =====
-- web/src/pages/JobDetailPage.tsx: when it asks again, what it says of a failure, the texts of the
-- lifecycle, and where it offers a replay. `now` is Date.now(); fmtTime is a parameter.
pub mod Replay
use queue_flow.Base.{
  ℕ, Bool, true, false, not, ◌&&◌, Option, none, some, ◌++◌, Text, codes, ltb, ◌==◌,
}
use queue_flow.Types.{JobRecord, JobStatus, queued, running, retrying, succeeded, failed, dead}
use queue_flow.Dashboard.Format.{duration, until}

-- An ApiError with its status, or any other error; each with its message.
pub data Failure : Type 0 where
  api_error : ℕ → Text → Failure
  other_error : Text → Failure

is_not_found : Failure → Bool
is_not_found (api_error status m) = status == 404
is_not_found (other_error m) = false

message_of : Failure → Text
message_of (api_error status m) = m
message_of (other_error m) = m

-- `retry`: whether the query is sent again, after `count` failures.
retries : ℕ → Failure → Bool
unfolding is_not_found
retries count err = not (is_not_found err) && ltb count 1

-- The title and the text of the alert.
failure_alert : Text → Failure → Text × Text
unfolding is_not_found message_of
failure_alert id err = elim (is_not_found err) [
  | true ↦ (codes "No such job", id)
  | false ↦ (codes "Could not load job", message_of err)
]

-- A step of the lifecycle: its label, its time, and whether it is done.
pub record Step : Type 0 where
  pub label : Text
  pub time : Text
  pub is_done : Bool

given : Option ℕ → Bool
given none = false
given (some t) = true

module _ (to_fixed : ℕ → Text) (fmt_time : Option ℕ → Text) (now : ℕ) where
  waited_text : JobRecord → Text
  waited_text j = elim j.started_at [
    | some t ↦ codes "waited " ++ duration to_fixed (some j.created_at) j.started_at
    | none ↦ codes "waiting…"
  ]

  -- Where the job has not completed.
  pending_text : JobStatus → Option ℕ → Text
  pending_text running next_run_at = codes "running…"
  pending_text retrying (some t) = codes "backing off — next attempt " ++ until to_fixed now t
  pending_text _ _ = codes "—"

  ran_text : JobRecord → Text
  unfolding pending_text
  ran_text j = elim j.completed_at [
    | some t ↦ codes "ran for " ++ duration to_fixed j.started_at j.completed_at
    | none ↦ pending_text j.status j.next_run_at
  ]

  -- `j.status === 'dead'`, which also shows the button.
  unfoldable pub offers_replay : JobRecord → Bool
  offers_replay j = elim j.status [ dead ↦ true | _ ↦ false ]

  -- The three steps and the two texts between them.
  lifecycle : JobRecord → Step × Text × Step × Text × Step
  unfolding waited_text ran_text offers_replay given
  lifecycle j = (
    record { label = codes "created"; time = fmt_time (some j.created_at); is_done = true },
    waited_text j,
    record { label = codes "started"; time = fmt_time j.started_at; is_done = given j.started_at },
    ran_text j,
    record {
      label = elim (offers_replay j) [ true ↦ codes "died" | false ↦ codes "completed" ];
      time = fmt_time j.completed_at;
      is_done = given j.completed_at;
    },
  )
