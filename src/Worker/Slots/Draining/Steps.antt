-- ===== src/Worker/Slots/Draining/Steps.antt =====
-- src/worker/index.ts: a loop that was told to stop and holds no job, event by event.
use queue_flow.Base.{
  ℕ, zero, suc, ◌≡◌, refl, inl, inr, Bool, true, false, Option, none, some, arith, Bool-cases,
}
use queue_flow.Semaphore.{Semaphore, release}
use queue_flow.Types.{is_uuid}
use queue_flow.Worker.Slots.{
  Phase, at_head, parked, moving, discarding, left, thrown, thrown_holding, Loop, turn, moved,
  move_failed, discarded, discard_failed, execution_ended, stop, step, run, after_acquire,
  after_release, give_back, on_turn, on_moved, on_move_failed, on_ended,
}
use queue_flow.Worker.Slots

-- No execution runs, and the loop is not in BLMOVE, waiting to get there, or past it with an entry.
abbrev pub IsOut : Phase → Type 0
IsOut at_head = Unit {0}
IsOut left = Unit {0}
IsOut thrown = Unit {0}
IsOut parked = ⊥
IsOut moving = ⊥
IsOut discarding = ⊥
IsOut thrown_holding = ⊥

abbrev pub IsEmpty : Loop → Type 0
IsEmpty l = (l.executions ≡ 0) × IsOut l.phase × (l.stopping ≡ true)

pub IsEmpty-step :
    (s : Semaphore) (p : Phase) (n : ℕ) (b : Bool) (e : Slots.Event)
    → n ≡ 0
    → IsOut p
    → b ≡ true
    → IsEmpty (step (record { slots = s; phase = p; executions = n; stopping = b }) e)
unfolding step on_turn on_ended
IsEmpty-step s p (suc n) b e z h d = absurd (omega (arith, z))
IsEmpty-step s p zero false e z h d = absurd (ground (arith, d))
IsEmpty-step s parked zero true e z h d = absurd h
IsEmpty-step s moving zero true e z h d = absurd h
IsEmpty-step s discarding zero true e z h d = absurd h
IsEmpty-step s thrown_holding zero true e z h d = absurd h
IsEmpty-step s at_head zero true turn z h d = (refl, tt, refl)
IsEmpty-step s at_head zero true (moved id) z h d = (refl, tt, refl)
IsEmpty-step s at_head zero true move_failed z h d = (refl, tt, refl)
IsEmpty-step s at_head zero true execution_ended z h d = (refl, tt, refl)
IsEmpty-step s at_head zero true discarded z h d = (refl, tt, refl)
IsEmpty-step s at_head zero true discard_failed z h d = (refl, tt, refl)
IsEmpty-step s at_head zero true stop z h d = (refl, tt, refl)
IsEmpty-step s left zero true turn z h d = (refl, tt, refl)
IsEmpty-step s left zero true (moved id) z h d = (refl, tt, refl)
IsEmpty-step s left zero true move_failed z h d = (refl, tt, refl)
IsEmpty-step s left zero true execution_ended z h d = (refl, tt, refl)
IsEmpty-step s left zero true discarded z h d = (refl, tt, refl)
IsEmpty-step s left zero true discard_failed z h d = (refl, tt, refl)
IsEmpty-step s left zero true stop z h d = (refl, tt, refl)
IsEmpty-step s thrown zero true turn z h d = (refl, tt, refl)
IsEmpty-step s thrown zero true (moved id) z h d = (refl, tt, refl)
IsEmpty-step s thrown zero true move_failed z h d = (refl, tt, refl)
IsEmpty-step s thrown zero true execution_ended z h d = (refl, tt, refl)
IsEmpty-step s thrown zero true discarded z h d = (refl, tt, refl)
IsEmpty-step s thrown zero true discard_failed z h d = (refl, tt, refl)
IsEmpty-step s thrown zero true stop z h d = (refl, tt, refl)

stopping-after_release :
    (l : Loop) (s : Semaphore) (o : Option ℕ) → (after_release l (s, o)).stopping ≡ l.stopping
unfolding after_release
stopping-after_release l s none = refl
stopping-after_release l s (some c) = refl

stopping-give_back : (l : Loop) → (give_back l).stopping ≡ l.stopping
unfolding give_back
stopping-give_back l = stopping-after_release l (release l.slots).0 (release l.slots).1

pub stopping-step :
    (p : Phase) (e : Slots.Event) (s : Semaphore) (n : ℕ)
    → (step (record { slots = s; phase = p; executions = n; stopping = true }) e).stopping ≡ true
unfolding step on_turn on_moved on_move_failed on_ended
stopping-step at_head turn s n = refl
stopping-step parked turn s n = refl
stopping-step moving turn s n = refl
stopping-step left turn s n = refl
stopping-step discarding turn s n = refl
stopping-step thrown_holding turn s n = refl
stopping-step thrown turn s n = refl
stopping-step moving (moved none) s n = stopping-give_back _
stopping-step moving (moved (some id)) s n = elim (Bool-cases (is_uuid id)) [
  | inl e ↦ rw e refl
  | inr e ↦ rw e refl
]
stopping-step at_head (moved id) s n = refl
stopping-step parked (moved id) s n = refl
stopping-step left (moved id) s n = refl
stopping-step discarding (moved id) s n = refl
stopping-step thrown_holding (moved id) s n = refl
stopping-step thrown (moved id) s n = refl
stopping-step moving move_failed s n = stopping-give_back _
stopping-step at_head move_failed s n = refl
stopping-step parked move_failed s n = refl
stopping-step left move_failed s n = refl
stopping-step discarding move_failed s n = refl
stopping-step thrown_holding move_failed s n = refl
stopping-step thrown move_failed s n = refl
stopping-step at_head discarded s n = refl
stopping-step parked discarded s n = refl
stopping-step moving discarded s n = refl
stopping-step left discarded s n = refl
stopping-step thrown discarded s n = refl
stopping-step thrown_holding discarded s n = refl
stopping-step at_head discard_failed s n = refl
stopping-step parked discard_failed s n = refl
stopping-step moving discard_failed s n = refl
stopping-step left discard_failed s n = refl
stopping-step thrown discard_failed s n = refl
stopping-step thrown_holding discard_failed s n = refl
stopping-step discarding discarded s n = stopping-give_back _
stopping-step discarding discard_failed s n = refl
stopping-step p execution_ended s zero = refl
stopping-step p execution_ended s (suc n) = stopping-give_back _
stopping-step p stop s n = refl
