-- ===== src/Dashboard/Detail/Replay.antt =====
-- web/src/pages/JobDetailPage.tsx and src/api/index.ts: the button for a replay and what the server
-- answers to it.
use queue_flow.Base.{ℕ, ◌≡◌, ◌↔◌, ◌∙◌, sym, inl, inr, true, false, Option, some, Text, Bool-cases}
use queue_flow.Proc.{result}
use queue_flow.Types.{JobRow, row_to_job}
use queue_flow.Store.Jobs.{find}
use queue_flow.Store.Redis.{Redis}
use queue_flow.Store.World.{World}
use queue_flow.Api.{accepted, not_dead, replay_job, is_dead}
use queue_flow.Api.Outcomes.{replay_job-replays, replay_job-refuses}
use queue_flow.Dashboard.Detail.{offers_replay}

module _ (R : Redis) (uuid_in : Text → Option Text) (to_fixed : ℕ → Text)
    (fmt_time : Option ℕ → Text) (now : ℕ) where
  pub offers_replay_iff :
      (w : World R) (id key : Text) (row : JobRow)
      → uuid_in id ≡ some key
      → find key w.db.jobs ≡ some row
      → (offers_replay to_fixed fmt_time now (row_to_job row) ≡ true)
        ↔ (result (replay_job R uuid_in id) w ≡ accepted id)
  unfolding offers_replay row_to_job
  offers_replay_iff w id key row u f = elim (Bool-cases (is_dead row)) [
    | inl d ↦ (λ e. (replay_job-replays R uuid_in w id key row u f d).0, λ a. d)
    | inr n ↦
        let refused = (replay_job-refuses R uuid_in w id key row u f n).0 in
        (
          λ e. absurd (let no : true ≡ false = sym e ∙ n in cc),
          λ a. absurd (let no : accepted id ≡ not_dead row.status = sym a ∙ refused in cc),
        )
  ]
