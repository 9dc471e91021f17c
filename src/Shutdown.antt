-- ===== src/Shutdown.antt =====
-- src/shared/shutdown.ts: onShutdown, as the events that its handlers react to. `drains` counts the
-- calls of the drain, which ends by one of the two last events.
pub mod Once
use queue_flow.Base.{ℕ, ◌+◌, List, [], ◌∷◌}

pub data Phase : Type 0 where
  up draining : Phase
  exited : ℕ → Phase

pub record State : Type 0 where
  pub phase : Phase
  pub drains : ℕ

pub data Event : Type 0 where
  signal : Event  -- SIGTERM or SIGINT
  drained drain_failed : Event

pub on_signal : Phase → ℕ → State
on_signal up n = record { phase = draining; drains = n + 1 }
on_signal draining n = record { phase = exited 1; drains = n }
on_signal (exited code) n = record { phase = exited code; drains = n }

-- The drain runs in the phase `draining` only, and an exited process reacts to nothing.
pub finish : ℕ → Phase → ℕ → State
finish code up n = record { phase = up; drains = n }
finish code draining n = record { phase = exited code; drains = n }
finish code (exited c) n = record { phase = exited c; drains = n }

pub step : State → Event → State
unfolding on_signal finish
step s signal = on_signal s.phase s.drains
step s drained = finish 0 s.phase s.drains
step s drain_failed = finish 1 s.phase s.drains

pub run : State → List Event → State
unfolding step
run s [] = s
run s (e ∷ es) = run (step s e) es

abbrev pub start : State
start = record { phase = up; drains = 0 }
