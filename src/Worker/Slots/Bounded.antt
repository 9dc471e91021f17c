-- ===== src/Worker/Slots/Bounded.antt =====
-- src/worker/index.ts: how many executions run at once, over any sequence of events.
use queue_flow.Base.{
  ℕ, zero, suc, ◌+◌, ◌≤◌, ◌<◌, ◌≡◌, refl, sym, subst, inl, inr, Bool, true, false, none, some, List,
  [], ◌∷◌, arith, ltb, Bool-cases,
}
use queue_flow.Types.{is_uuid}
use queue_flow.Semaphore.{Semaphore, new, acquire, release, in_flight}
use queue_flow.Worker.Slots.{
  Phase, at_head, parked, moving, discarding, left, thrown, thrown_holding, Loop, Event, turn,
  moved, move_failed, discarded, discard_failed, execution_ended, stop, after_acquire,
  after_release, give_back, on_turn, on_moved, on_move_failed, on_ended, step, run, start,
}

-- The slot that the loop itself holds.
abbrev pub held : Phase → ℕ
held moving = 1
held discarding = 1
held thrown_holding = 1
held _ = 0

abbrev waiters : Phase → List ℕ
waiters parked = 0 ∷ []
waiters _ = []

-- A loop that waits finds every slot in the hands of an execution.
abbrev IsFull : Phase → ℕ → Type 0
IsFull parked available = available ≡ 0
IsFull _ available = Unit

Sound : ℕ → Semaphore → Phase → ℕ → Type 0
Sound capacity s phase executions =
    (s.capacity ≡ capacity)
    × (executions + held phase + s.available ≡ capacity)
    × (s.waiting ≡ waiters phase)
    × IsFull phase s.available

SoundLoop : ℕ → Loop → Type 0
SoundLoop capacity l = Sound capacity l.slots l.phase l.executions

abbrev with_waiting : Semaphore → Phase → ℕ → Bool → List ℕ → Loop
with_waiting s phase n down ws = record {
  slots = record s { waiting = ws };
  phase = phase;
  executions = n;
  stopping = down;
}

give_back-free :
    (capacity : ℕ) (s : Semaphore) (phase : Phase) (n : ℕ) (down : Bool)
    → s.capacity ≡ capacity
    → n + held phase + s.available + 1 ≡ capacity
    → waiters phase ≡ []
    → SoundLoop capacity (give_back (with_waiting s phase n down []))
unfolding Sound SoundLoop give_back after_release release
give_back-free capacity s at_head n down c e w = ground arith
give_back-free capacity s parked n down c e w = cc
give_back-free capacity s moving n down c e w = ground arith
give_back-free capacity s discarding n down c e w = ground arith
give_back-free capacity s thrown_holding n down c e w = ground arith
give_back-free capacity s left n down c e w = ground arith
give_back-free capacity s thrown n down c e w = ground arith

give_back-idle :
    (capacity : ℕ) (s : Semaphore) (phase : Phase) (n : ℕ) (down : Bool)
    → s.capacity ≡ capacity
    → n + held phase + s.available + 1 ≡ capacity
    → waiters phase ≡ []
    → s.waiting ≡ []
    → SoundLoop capacity
        (give_back (record { slots = s; phase = phase; executions = n; stopping = down }))
give_back-idle capacity s phase n down c e w none_waits =
    subst (λ ws. SoundLoop capacity (give_back (with_waiting s phase n down ws))) (sym none_waits)
      (give_back-free capacity s phase n down c e w)

give_back-parked :
    (capacity : ℕ) (s : Semaphore) (n : ℕ) (down : Bool)
    → Sound capacity s parked (suc n)
    → SoundLoop capacity
        (give_back (record { slots = s; phase = parked; executions = n; stopping = down }))
unfolding Sound SoundLoop give_back after_release release
give_back-parked capacity s n down h =
    subst (λ ws. SoundLoop capacity (give_back (with_waiting s parked n down ws))) (sym h.2)
      (ground (arith, h))

turn-Sound :
    (capacity : ℕ) (s : Semaphore) (n : ℕ) (down : Bool)
    → 0 < capacity
    → Sound capacity s at_head n
    → SoundLoop capacity
        (on_turn (record { slots = s; phase = at_head; executions = n; stopping = down }))
unfolding Sound SoundLoop on_turn after_acquire acquire
turn-Sound capacity s n true pos h = h
turn-Sound capacity s n false pos h = elim (Bool-cases (ltb 0 s.available)) [
  | inl free ↦ rw free (h.0, ground (arith, h.1, free), h.2, tt)
  | inr full ↦ rw full (h.0, h.1, rw h.2 refl, ground (arith, full))
]

step-Sound :
    (capacity : ℕ) (phase : Phase) (s : Semaphore) (n : ℕ) (down : Bool) (e : Event)
    → 0 < capacity
    → Sound capacity s phase n
    → SoundLoop capacity
        (step (record { slots = s; phase = phase; executions = n; stopping = down }) e)
unfolding Sound SoundLoop step on_moved on_move_failed on_ended
step-Sound capacity at_head s n down turn pos h = turn-Sound capacity s n down pos h
step-Sound capacity parked s n down turn pos h = h
step-Sound capacity moving s n down turn pos h = h
step-Sound capacity discarding s n down turn pos h = h
step-Sound capacity thrown_holding s n down turn pos h = h
step-Sound capacity left s n down turn pos h = h
step-Sound capacity thrown s n down turn pos h = h
step-Sound capacity at_head s n down (moved id) pos h = h
step-Sound capacity parked s n down (moved id) pos h = h
step-Sound capacity moving s n down (moved none) pos h =
    give_back-idle capacity s at_head n down h.0 (omega (arith, h.1)) refl h.2
step-Sound capacity moving s n down (moved (some id)) pos h = elim (Bool-cases (is_uuid id)) [
  | inl uuid ↦ rw uuid (h.0, omega (arith, h.1), h.2, tt)
  | inr junk ↦ rw junk (h.0, h.1, h.2, tt)
]
step-Sound capacity discarding s n down (moved id) pos h = h
step-Sound capacity thrown_holding s n down (moved id) pos h = h
step-Sound capacity left s n down (moved id) pos h = h
step-Sound capacity thrown s n down (moved id) pos h = h
step-Sound capacity at_head s n down move_failed pos h = h
step-Sound capacity parked s n down move_failed pos h = h
step-Sound capacity moving s n down move_failed pos h = elim (Bool-cases down) [
  | inl asked ↦ rw asked (give_back-idle capacity s left n true h.0 (omega (arith, h.1)) refl h.2)
  | inr fatal ↦
      rw fatal (give_back-idle capacity s thrown n false h.0 (omega (arith, h.1)) refl h.2)
]
step-Sound capacity discarding s n down move_failed pos h = h
step-Sound capacity thrown_holding s n down move_failed pos h = h
step-Sound capacity left s n down move_failed pos h = h
step-Sound capacity thrown s n down move_failed pos h = h
step-Sound capacity at_head s n down discarded pos h = h
step-Sound capacity parked s n down discarded pos h = h
step-Sound capacity moving s n down discarded pos h = h
step-Sound capacity left s n down discarded pos h = h
step-Sound capacity thrown s n down discarded pos h = h
step-Sound capacity thrown_holding s n down discarded pos h = h
step-Sound capacity at_head s n down discard_failed pos h = h
step-Sound capacity parked s n down discard_failed pos h = h
step-Sound capacity moving s n down discard_failed pos h = h
step-Sound capacity left s n down discard_failed pos h = h
step-Sound capacity thrown s n down discard_failed pos h = h
step-Sound capacity thrown_holding s n down discard_failed pos h = h
step-Sound capacity discarding s n down discarded pos h =
    give_back-idle capacity s at_head n down h.0 (omega (arith, h.1)) refl h.2
step-Sound capacity discarding s n down discard_failed pos h = (h.0, h.1, h.2, tt)
step-Sound capacity phase s zero down execution_ended pos h = h
step-Sound capacity parked s (suc n) down execution_ended pos h =
    give_back-parked capacity s n down h
step-Sound capacity at_head s (suc n) down execution_ended pos h =
    give_back-idle capacity s at_head n down h.0 (omega (arith, h.1)) refl h.2
step-Sound capacity moving s (suc n) down execution_ended pos h =
    give_back-idle capacity s moving n down h.0 (omega (arith, h.1)) refl h.2
step-Sound capacity left s (suc n) down execution_ended pos h =
    give_back-idle capacity s left n down h.0 (omega (arith, h.1)) refl h.2
step-Sound capacity thrown s (suc n) down execution_ended pos h =
    give_back-idle capacity s thrown n down h.0 (omega (arith, h.1)) refl h.2
step-Sound capacity discarding s (suc n) down execution_ended pos h =
    give_back-idle capacity s discarding n down h.0 (omega (arith, h.1)) refl h.2
step-Sound capacity thrown_holding s (suc n) down execution_ended pos h =
    give_back-idle capacity s thrown_holding n down h.0 (omega (arith, h.1)) refl h.2
step-Sound capacity phase s n down stop pos h = h

run-Sound :
    (capacity : ℕ) (es : List Event) (l : Loop)
    → 0 < capacity
    → SoundLoop capacity l
    → SoundLoop capacity (run l es)
unfolding run SoundLoop
run-Sound capacity [] l pos h = h
run-Sound capacity (e ∷ es) l pos h =
    run-Sound capacity es (step l e) pos
      (step-Sound capacity l.phase l.slots l.executions l.stopping e pos h)

module _ (capacity : ℕ) (slots : Semaphore) (es : List Event) where
  new-positive : new capacity ≡ some slots → 0 < capacity
  unfolding new
  new-positive e = ground arith

  new-start : new capacity ≡ some slots → SoundLoop capacity (start slots)
  unfolding new start Sound SoundLoop
  new-start e = ground arith

  -- For a new semaphore with the worker's concurrency as its capacity, and any sequence of
  -- turns of the main loop, replies and failures of BLMOVE and of the LREM of an entry that is
  -- no uuid, ends of executions and a stop: at most that many executions run at once,
  -- slots.inFlight is the number of executions and one more while the loop is in BLMOVE, is in
  -- that LREM or has been thrown out by it, and a loop that waits for a slot finds all of them
  -- taken by executions.
  pub run-bounded :
      new capacity ≡ some slots
      → ((run (start slots) es).executions ≤ capacity)
        × (in_flight (run (start slots) es).slots
            ≡ (run (start slots) es).executions + held (run (start slots) es).phase)
        × ((run (start slots) es).phase ≡ parked → (run (start slots) es).executions ≡ capacity)
  unfolding Sound SoundLoop in_flight
  run-bounded e =
      let l = run (start slots) es in
      let h = run-Sound capacity es (start slots) (new-positive e) (new-start e) in
      (omega (arith, h.1), omega (arith, h.0, h.1), λ p. omega (arith, rw p at h.1, rw p at h.3))
