-- ===== src/Examples/Loops.antt =====
-- The timer of the heartbeat and the loop of the scheduler at concrete inputs.
use queue_flow.Base.{
  ℕ, ◌≡◌, refl, ◌≤◌, ◌<◌, ◌+◌, true, false, List, [], ◌∷◌, ◌++◌, Bool, Option, some, codes, arith,
}
use queue_flow.Keys.{alive}
use queue_flow.Heartbeat.Timer.{start_heartbeat}
use queue_flow.Heartbeat.Timer.Steady.{silence, elapsed, start_heartbeat-lives}
use queue_flow.Scheduler.Loop.{Event, turn, pass_ended, drain_called, run, start, left}
use queue_flow.Scheduler.Loop.Closes.{run-closes}
use queue_flow.Semaphore.{Semaphore, new, acquire, release, in_flight}
use queue_flow.Types.{is_uuid}
use queue_flow.Worker.Slots
use queue_flow.Worker.Slots.Draining
use queue_flow.Worker.Slots.Draining.{loop_event, race_over, polled, decided}
use queue_flow.Worker.Slots.Draining.Steps.{IsEmpty}
use queue_flow.Worker.Slots.Draining.Empty.{drive-IsEmpty}
use queue_flow.Examples.Interleavings.{first_id}
use queue_flow.Examples.Memory.{memory}

-- With the usual settings, one beat that fails between two that succeed, and one at the end.
abbrev beats_seen : List (ℕ × Bool)
beats_seen = (0, false) ∷ (250, true) ∷ (1000, false) ∷ []

one_missed : silence 10000 0 beats_seen + (10000 + 500) < 30000
unfolding silence
one_missed = omega arith

before_next : 42000 ≤ 1000 + elapsed 10000 beats_seen + (10000 + 500)
unfolding elapsed
before_next = omega arith

start_heartbeat-lives_example :
    memory.exists
      (start_heartbeat memory 30 10000
        (codes "42")
        (codes "w1")
        1000
        beats_seen
        (λ key. Option.none))
      42000
      (alive (codes "w1"))
    ≡ true
start_heartbeat-lives_example =
    start_heartbeat-lives memory 30 10000 (codes "42") (codes "w1") beats_seen 1000 500 42000
      (λ key. Option.none) one_missed before_next

abbrev drained : List Event
drained = turn ∷ drain_called ∷ pass_ended ∷ turn ∷ []

run-closes_example : (run start (drained ++ (turn ∷ []))).phase ≡ left
unfolding run
run-closes_example = run-closes drained (turn ∷ []) refl

abbrev one_slot : Semaphore
one_slot = record { capacity = 1; available = 1; waiting = [] }

-- A job is taken and runs, the worker is told to stop, the job ends, and a poll sees no slot taken.
abbrev drained_worker : List Draining.Event
drained_worker =
    loop_event Slots.turn
    ∷ loop_event (Slots.moved (some first_id))
    ∷ Draining.drain_called
    ∷ race_over
    ∷ polled false
    ∷ loop_event Slots.execution_ended
    ∷ polled false
    ∷ []

drive-IsEmpty_example :
    IsEmpty
      (Draining.drive
        (Draining.start one_slot)
        (drained_worker ++ (loop_event Slots.turn ∷ []))).loop
unfolding Draining.drive Draining.start Slots.step Slots.start in_flight acquire release new is_uuid
drive-IsEmpty_example =
    drive-IsEmpty 1 one_slot refl drained_worker (loop_event Slots.turn ∷ []) refl
