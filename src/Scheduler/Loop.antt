-- ===== src/Scheduler/Loop.antt =====
-- src/scheduler/index.ts: the loop of main and the drain that waits for it, as the events that they
-- react to. What a pass does is in Scheduler.Main; an event that cannot happen changes nothing.
pub mod Closes
use queue_flow.Base.{Bool, true, false, List, [], ◌∷◌, if◌then◌else◌}

-- Where the loop stands: at its head, in a pass (the sleep after it included), out of the loop, or
-- thrown out of it, which ends the process.
pub data Phase : Type 0 where
  at_head passing left thrown : Phase

-- The drain: not called, in its race, or past it, with what the race gave.
pub data Drain : Type 0 where
  idle racing : Drain
  closing : Bool → Drain

pub record Loop : Type 0 where
  pub phase : Phase
  pub stopping : Bool
  pub drain : Drain

pub data Event : Type 0 where
  turn : Event  -- the loop goes on from its head
  pass_ended pass_failed : Event
  drain_called : Event
  time_out : Event  -- the five seconds are over

-- `loopHasExited()`, which the race waits for.
unfoldable pub has_exited : Drain → Drain
has_exited idle = idle
has_exited racing = closing true
has_exited (closing finished) = closing finished

unfoldable pub on_turn : Loop → Loop
unfolding has_exited
on_turn l =
    if l.stopping
    then record l { phase = left; drain = has_exited l.drain }
    else record l { phase = passing }

-- A loop that is out already has resolved the promise that the race looks at.
unfoldable pub on_drain : Loop → Loop
on_drain l = record l { stopping = true; drain = elim l.phase [ left ↦ closing true | _ ↦ racing ] }

unfoldable pub react : Loop → Event → Loop
unfolding on_turn on_drain
react l turn = elim l.phase [ at_head ↦ on_turn l | _ ↦ l ]
react l pass_ended = elim l.phase [ passing ↦ record l { phase = at_head } | _ ↦ l ]
react l pass_failed = elim l.phase [ passing ↦ record l { phase = thrown } | _ ↦ l ]
react l drain_called = elim l.drain [ idle ↦ on_drain l | _ ↦ l ]
react l time_out = elim l.drain [ racing ↦ record l { drain = closing false } | _ ↦ l ]

unfoldable pub step : Loop → Event → Loop
unfolding react
step l e = elim l.phase [ thrown ↦ l | _ ↦ react l e ]

unfoldable pub run : Loop → List Event → Loop
unfolding step
run l [] = l
run l (e ∷ es) = run (step l e) es

abbrev pub start : Loop
start = record { phase = at_head; stopping = false; drain = idle }
