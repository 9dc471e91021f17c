-- ===== src/Heartbeat/Timer/Steady.antt =====
-- src/shared/heartbeat.ts: how long a heartbeat survives beats that fail.
use queue_flow.Base.{
  ℕ, ◌+◌, ◌*◌, ◌≤◌, ◌<◌, ◌≡◌, ◌∙◌, refl, Bool, true, false, List, [], ◌∷◌, Text, ltb, max, ===_refl,
  arith,
}
use queue_flow.Keys.{alive}
use queue_flow.Store.Redis.{Redis}
use queue_flow.Heartbeat.Timer.{ttl_s_of, interval_ms_of, beat_at, fire, start_heartbeat}

-- How long ago the last beat that succeeded was, at the last firing; `s` is that before the firings.
unfoldable pub silence : ℕ → ℕ → List (ℕ × Bool) → ℕ
silence interval s [] = s
silence interval s ((late, true) ∷ fs) = silence interval 0 fs
silence interval s ((late, false) ∷ fs) = silence interval (s + (interval + late)) fs

-- The time that the firings take.
unfoldable pub elapsed : ℕ → List (ℕ × Bool) → ℕ
elapsed interval [] = 0
elapsed interval ((late, ok) ∷ fs) = interval + late + elapsed interval fs

module _ (R : Redis) (ttl_setting interval_setting : ℕ) (pid worker_id : Text) where
  abbrev ttl_ms : ℕ
  ttl_ms = max 1 ttl_setting * 1000

  abbrev interval : ℕ
  interval = max 200 interval_setting

  -- The key lives for its time to live from `last` on.
  abbrev LivesFrom : ℕ → R.Beats → Type 0
  LivesFrom last b = (later : ℕ) → R.exists b later (alive worker_id) ≡ ltb later (last + ttl_ms)

  LivesFrom-beat :
      (now : ℕ) (b : R.Beats)
      → LivesFrom now (beat_at R ttl_setting interval_setting pid worker_id now true b)
  unfolding beat_at ttl_s_of
  LivesFrom-beat now b later =
      R.exists-set_ex b now later (max 1 ttl_setting) (alive worker_id) pid (alive worker_id)
      ∙ rw (===_refl (alive worker_id)) refl

  fire-lives :
      (fs : List (ℕ × Bool)) (last s now late later : ℕ) (b : R.Beats)
      → LivesFrom last b
      → now ≡ last + s
      → silence interval s fs + (interval + late) < ttl_ms
      → later ≤ now + elapsed interval fs + (interval + late)
      → R.exists
          (fire R ttl_setting interval_setting pid worker_id now fs b)
          later
          (alive worker_id)
        ≡ true
  unfolding fire silence elapsed interval_ms_of
  fire-lives [] last s now late later b lives e short le =
      lives later ∙ ground (arith, e, short, le)
  fire-lives ((more, true) ∷ fs) last s now late later b lives e short le =
      let at = now + (interval + more) in
      fire-lives fs at 0 at late later _ (LivesFrom-beat at b) (omega arith) short
        (omega (arith, le))
  fire-lives ((more, false) ∷ fs) last s now late later b lives e short le =
      fire-lives fs last (s + (interval + more)) (now + (interval + more)) late later b lives
        (omega (arith, e)) short (omega (arith, le))

  -- For any sequence of firings of the timer, each an interval or more after the one before,
  -- with beats that succeed or fail: if the time from the last beat that succeeded to the next
  -- firing is shorter than the time to live, the worker's heartbeat exists up to that firing.
  pub start_heartbeat-lives :
      (fs : List (ℕ × Bool)) (now late later : ℕ) (b : R.Beats)
      → silence interval 0 fs + (interval + late) < ttl_ms
      → later ≤ now + elapsed interval fs + (interval + late)
      → R.exists
          (start_heartbeat R ttl_setting interval_setting pid worker_id now fs b)
          later
          (alive worker_id)
        ≡ true
  unfolding start_heartbeat
  start_heartbeat-lives fs now late later b short le =
      fire-lives fs now 0 now late later _ (LivesFrom-beat now b) (omega arith) short le
