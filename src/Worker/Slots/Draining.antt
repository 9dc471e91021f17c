-- ===== src/Worker/Slots/Draining.antt =====
-- src/worker/index.ts: drain with the main loop, its slots and its executions, as the events that
-- they react to. An event that cannot happen changes nothing.
pub mod Steps
pub mod Empty
use queue_flow.Base.{ℕ, Bool, List, [], ◌∷◌, ◌||◌, ◌==◌, if◌then◌else◌}
use queue_flow.Semaphore.{Semaphore, in_flight}
use queue_flow.Worker.Slots.{Loop, stop, step}
use queue_flow.Worker.Slots

-- Where the drain stands: not called, in the race between the end of the loop and a second, in the
-- polls of slots.inFlight, or past them with the number of jobs left; the heartbeat goes if it is 0.
pub data Drain : Type 0 where
  idle racing polling : Drain
  decided : ℕ → Drain

pub record Worker : Type 0 where
  pub loop : Loop
  pub drain : Drain

pub data Event : Type 0 where
  loop_event : Slots.Event → Event
  drain_called race_over : Event
  polled : Bool → Event  -- whether the deadline has passed

unfoldable pub on_called : Drain → Drain
on_called idle = racing
on_called racing = racing
on_called polling = polling
on_called (decided n) = decided n

unfoldable pub on_race_over : Drain → Drain
on_race_over idle = idle
on_race_over racing = polling
on_race_over polling = polling
on_race_over (decided n) = decided n

-- `slots.inFlight > 0 && Date.now() < deadline` goes on.
unfoldable pub on_polled : Bool → ℕ → Drain → Drain
on_polled late busy idle = idle
on_polled late busy racing = racing
on_polled late busy polling = if late || busy == 0 then decided busy else polling
on_polled late busy (decided n) = decided n

unfoldable pub react : Worker → Event → Worker
unfolding on_called on_race_over on_polled
react w (loop_event e) = record w { loop = step w.loop e }
react w drain_called = record { loop = step w.loop stop; drain = on_called w.drain }
react w race_over = record w { drain = on_race_over w.drain }
react w (polled late) = record w { drain = on_polled late (in_flight w.loop.slots) w.drain }

unfoldable pub drive : Worker → List Event → Worker
unfolding react
drive w [] = w
drive w (e ∷ es) = drive (react w e) es

unfoldable pub start : Semaphore → Worker
start slots = record { loop = Slots.start slots; drain = idle }
