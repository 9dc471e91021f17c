-- ===== src/Worker/Slots.antt =====
-- src/worker/index.ts: the main loop with its slots, and the executions that it starts without
-- waiting for them, as the events that they react to. An event of a promise that is not pending
-- changes nothing.
pub mod Bounded
pub mod Connections
pub mod Draining
use queue_flow.Base.{
  ℕ, zero, suc, ◌+◌, ◌-◌, Bool, true, false, Option, none, some, List, [], ◌∷◌, Text, if◌then◌else◌,
}
use queue_flow.Types.{is_uuid}
use queue_flow.Semaphore.{Semaphore, acquire, release, in_flight}

-- Where the loop stands: at its head, parked in `slots.acquire()`, in BLMOVE, in the LREM of an entry
-- that is no uuid, out of the loop, or thrown out of it by BLMOVE or by that LREM, whose slot is not
-- given back. What throws ends the process; the model lets the executions go on.
pub data Phase : Type 0 where
  at_head parked moving discarding left thrown thrown_holding : Phase

pub record Loop : Type 0 where
  pub slots : Semaphore
  pub phase : Phase
  pub executions : ℕ
  pub stopping : Bool

pub data Event : Type 0 where
  turn : Event  -- the loop goes on from its head
  moved : Option Text → Event  -- BLMOVE returns
  move_failed : Event
  discarded discard_failed : Event  -- LREM returns, or throws
  execution_ended : Event  -- with or without an error
  stop : Event  -- the drain sets `stopping`

unfoldable pub after_acquire : Loop → Semaphore × Bool → Loop
after_acquire l (slots, true) = record l { slots = slots; phase = moving }
after_acquire l (slots, false) = record l { slots = slots; phase = parked }

-- A waiter that is resolved goes on with BLMOVE.
unfoldable pub after_release : Loop → Semaphore × Option ℕ → Loop
after_release l (slots, none) = record l { slots = slots }
after_release l (slots, some caller) = record l { slots = slots; phase = moving }

unfoldable pub give_back : Loop → Loop
unfolding after_release
give_back l = after_release l (release l.slots)

unfoldable pub on_turn : Loop → Loop
unfolding after_acquire
on_turn l = if l.stopping then record l { phase = left } else after_acquire l (acquire 0 l.slots)

unfoldable pub on_moved : Option Text → Loop → Loop
unfolding give_back
on_moved none l = give_back (record l { phase = at_head })
on_moved (some id) l =
    if is_uuid id
    then record l { phase = at_head; executions = l.executions + 1 }
    else record l { phase = discarding }

unfoldable pub on_move_failed : Loop → Loop
unfolding give_back
on_move_failed l = give_back (record l { phase = if l.stopping then left else thrown })

unfoldable pub on_ended : ℕ → Loop → Loop
unfolding give_back
on_ended zero l = l
on_ended (suc n) l = give_back (record l { executions = n })

unfoldable pub step : Loop → Event → Loop
unfolding on_turn on_moved on_move_failed on_ended give_back
step l turn = elim l.phase [ at_head ↦ on_turn l | _ ↦ l ]
step l (moved id) = elim l.phase [ moving ↦ on_moved id l | _ ↦ l ]
step l move_failed = elim l.phase [ moving ↦ on_move_failed l | _ ↦ l ]
step l discarded = elim l.phase [ discarding ↦ give_back (record l { phase = at_head }) | _ ↦ l ]
step l discard_failed = elim l.phase [ discarding ↦ record l { phase = thrown_holding } | _ ↦ l ]
step l execution_ended = on_ended l.executions l
step l stop = record l { stopping = true }

pub run : Loop → List Event → Loop
unfolding step
run l [] = l
run l (e ∷ es) = run (step l e) es

unfoldable pub start : Semaphore → Loop
start slots = record { slots = slots; phase = at_head; executions = 0; stopping = false }
