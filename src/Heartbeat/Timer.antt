-- ===== src/Heartbeat/Timer.antt =====
-- src/shared/heartbeat.ts: startHeartbeat, its timer and stop. The settings are the whole numbers
-- that HEARTBEAT_TTL_S and HEARTBEAT_INTERVAL_MS give.
pub mod Steady
use queue_flow.Base.{
  ℕ, ◌+◌, ◌*◌, ◌≤◌, ◌<◌, ◌≡◌, ◌∙◌, refl, Bool, true, false, List, [], ◌∷◌, Text, length, ltb, max,
  ===_refl, arith,
}
use queue_flow.Keys.{alive}
use queue_flow.Store.Redis.{Redis}

-- `TTL_S`
ttl_s_of : ℕ → ℕ
ttl_s_of setting = max 1 setting

-- `INTERVAL_MS`
interval_ms_of : ℕ → ℕ
interval_ms_of setting = max 200 setting

module _ (R : Redis) (ttl_setting interval_setting : ℕ) (pid worker_id : Text) where
  -- What one beat does at a time; an error of it is logged only.
  pub beat_at : ℕ → Bool → R.Beats → R.Beats
  unfolding ttl_s_of
  beat_at now true b = R.set_ex b now (alive worker_id) pid (ttl_s_of ttl_setting)
  beat_at now false b = b

  -- The firings of the timer after the one at `now`, up to stop(): by how much each comes later
  -- than its interval, and whether its beat succeeds.
  fire : ℕ → List (ℕ × Bool) → R.Beats → R.Beats
  unfolding beat_at interval_ms_of
  fire now [] b = b
  fire now ((late, ok) ∷ fs) b =
      let at = now + (interval_ms_of interval_setting + late) in fire at fs (beat_at at ok b)

  -- `await beat()`, then the timer.
  pub start_heartbeat : ℕ → List (ℕ × Bool) → R.Beats → R.Beats
  unfolding fire
  start_heartbeat now fs b = fire now fs (beat_at now true b)
