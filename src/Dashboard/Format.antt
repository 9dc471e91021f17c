-- ===== src/Dashboard/Format.antt =====
-- web/src/format.ts: durations and ids. Times are milliseconds, from a moment to a later one; the text
-- of toFixed(1) is a parameter. Quotients are exact, where the source rounds doubles.
use queue_flow.Base.{
  ℕ, ◌+◌, ◌-◌, ◌*◌, ◌/◌, ◌%◌, ◌≤◌, ◌≡◌, Option, some, [], ◌++◌, Text, codes, take, ltb, leb,
  decimal, if◌then◌else◌, arith,
}

-- Math.round(n / d)
pub rounded : ℕ → ℕ → ℕ
rounded n d = (2 * n + d) / (2 * d)

pub short_id : Text → Text
short_id id = codes "job_" ++ take 8 id

pub time_ago : ℕ → ℕ → Text
unfolding rounded
time_ago now then_ms =
    let s = rounded (now - then_ms) 1000 in
    if ltb s 60
    then decimal s ++ codes "s ago"
    else if ltb s 3600
    then decimal (rounded s 60) ++ codes "m ago"
    else decimal (rounded s 3600) ++ codes "h ago"

pub shown_minutes : ℕ → ℕ
unfolding rounded
shown_minutes ms = rounded ms 60000

pub shown_seconds : ℕ → ℕ
unfolding rounded
shown_seconds ms = rounded (ms % 60000) 1000

module _ (to_fixed : ℕ → Text) where
  pub fmt_ms : ℕ → Text
  unfolding shown_minutes shown_seconds
  fmt_ms ms =
      if ltb ms 1000
      then decimal ms ++ codes "ms"
      else if ltb ms 60000
      then to_fixed ms ++ codes "s"
      else decimal (shown_minutes ms) ++ codes "m " ++ decimal (shown_seconds ms) ++ codes "s"

  pub duration : Option ℕ → Option ℕ → Text
  duration (some from) (some to) = fmt_ms (to - from)
  duration _ _ = []

  pub until : ℕ → ℕ → Text
  until now time = if leb time now then codes "now" else codes "in " ++ fmt_ms (time - now)

-- For every duration in milliseconds: the minutes that fmtMs shows are the full ones if the rest
-- is below half a minute and one more otherwise, and the seconds are at most 60.
pub shown_minutes-excess :
    (ms : ℕ)
    → (shown_minutes ms ≡ (if ltb (ms % 60000) 30000 then ms / 60000 else ms / 60000 + 1))
      × (shown_seconds ms ≤ 60)
unfolding shown_minutes shown_seconds rounded
shown_minutes-excess ms = ground arith
