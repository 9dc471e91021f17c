-- ===== src/Worker/Slots/Draining/Empty.antt =====
-- src/worker/index.ts: the jobs in the hands of a worker whose drain has let go of the heartbeat.
use queue_flow.Base.{
  ℕ, zero, suc, ◌+◌, ◌≡◌, ◌<◌, ◌∙◌, refl, sym, subst, inl, inr, Bool, true, some, List, [], ◌∷◌,
  ◌++◌, ◌||◌, ◌==◌, arith, Bool-cases,
}
use queue_flow.Semaphore.{Semaphore, new, in_flight}
use queue_flow.Worker.Slots.{
  Phase, at_head, parked, moving, discarding, left, thrown, thrown_holding, Loop, turn, moved,
  move_failed, execution_ended, stop, step, run, after_acquire, after_release, give_back, on_turn,
  on_moved, on_move_failed, on_ended,
}
use queue_flow.Worker.Slots
use queue_flow.Worker.Slots.Bounded.{held, run-bounded}
use queue_flow.Worker.Slots.Draining.{
  Drain, idle, racing, polling, decided, Worker, Event, loop_event, drain_called, race_over, polled,
  on_called, on_race_over, on_polled, react, drive, start,
}
use queue_flow.Worker.Slots.Draining.Steps.{IsOut, IsEmpty, IsEmpty-step, stopping-step}

run-more :
    (es : List Slots.Event) (e : Slots.Event) (l : Loop)
    → run l (es ++ (e ∷ [])) ≡ step (run l es) e
unfolding run
run-more [] e l = refl
run-more (x ∷ es) e l = run-more es e (step l x)

-- What the drain knows of the loop, at each of its stages.
abbrev Knows : Drain → Loop → Type 0
Knows idle l = Unit {0}
Knows racing l = l.stopping ≡ true
Knows polling l = l.stopping ≡ true
Knows (decided zero) l = IsEmpty l
Knows (decided (suc n)) l = l.stopping ≡ true

Knows-step : (d : Drain) (l : Loop) (e : Slots.Event) → Knows d l → Knows d (step l e)
Knows-step idle l e h = tt
Knows-step racing l e h =
    subst (λ b. (step (record l { stopping = b }) e).stopping ≡ true) (sym h)
      (stopping-step l.phase e l.slots l.executions)
Knows-step polling l e h =
    subst (λ b. (step (record l { stopping = b }) e).stopping ≡ true) (sym h)
      (stopping-step l.phase e l.slots l.executions)
Knows-step (decided zero) l e h = IsEmpty-step l.slots l.phase l.executions l.stopping e h.0 h.1 h.2
Knows-step (decided (suc n)) l e h =
    subst (λ b. (step (record l { stopping = b }) e).stopping ≡ true) (sym h)
      (stopping-step l.phase e l.slots l.executions)

module _ (capacity : ℕ) (slots : Semaphore) (made : new capacity ≡ some slots) where
  positive : 0 < capacity
  unfolding new
  positive = ground (arith, made)

  abbrev loop : List Slots.Event → Loop
  loop seen = run (Slots.start slots) seen

  IsOut-idle :
      (p : Phase) (n : ℕ) → n + held p ≡ 0 → (p ≡ parked → n ≡ capacity) → (n ≡ 0) × IsOut p
  IsOut-idle at_head n e f = (omega (arith, e), tt)
  IsOut-idle left n e f = (omega (arith, e), tt)
  IsOut-idle thrown n e f = (omega (arith, e), tt)
  IsOut-idle moving n e f = absurd (omega (arith, e))
  IsOut-idle discarding n e f = absurd (omega (arith, e))
  IsOut-idle thrown_holding n e f = absurd (omega (arith, e))
  IsOut-idle parked n e f = absurd (omega (arith, e, f refl, positive))

  -- A reading of zero slots in flight means that the worker is empty.
  zero-IsEmpty :
      (seen : List Slots.Event)
      → (loop seen).stopping ≡ true
      → in_flight (loop seen).slots ≡ 0
      → IsEmpty (loop seen)
  zero-IsEmpty seen down none_left =
      let h = run-bounded capacity slots seen made in
      let (n, out) =
        IsOut-idle (loop seen).phase (loop seen).executions (sym h.1 ∙ none_left) h.2 in
      (n, out, down)

  Knows-decided :
      (seen : List Slots.Event) (n : ℕ)
      → (loop seen).stopping ≡ true
      → in_flight (loop seen).slots ≡ n
      → Knows (decided n) (loop seen)
  Knows-decided seen zero down e = zero-IsEmpty seen down e
  Knows-decided seen (suc n) down e = down

  Knows-polled :
      (late : Bool) (seen : List Slots.Event) (d : Drain)
      → Knows d (loop seen)
      → Knows (on_polled late (in_flight (loop seen).slots) d) (loop seen)
  unfolding on_polled
  Knows-polled late seen idle h = tt
  Knows-polled late seen racing h = h
  Knows-polled late seen (decided n) h = h
  Knows-polled late seen polling h = elim (Bool-cases (late || in_flight (loop seen).slots == 0)) [
    | inl over ↦ rw over (Knows-decided seen (in_flight (loop seen).slots) h refl)
    | inr on ↦ rw on h
  ]

  Knows-called : (d : Drain) (l : Loop) → Knows d l → Knows (on_called d) (step l stop)
  unfolding step on_called
  Knows-called idle l h = refl
  Knows-called racing l h = refl
  Knows-called polling l h = refl
  Knows-called (decided zero) l h = (h.0, h.1, refl)
  Knows-called (decided (suc n)) l h = refl

  Knows-race_over : (d : Drain) (l : Loop) → Knows d l → Knows (on_race_over d) l
  unfolding on_race_over
  Knows-race_over idle l h = tt
  Knows-race_over racing l h = h
  Knows-race_over polling l h = h
  Knows-race_over (decided n) l h = h

  abbrev at_work : List Slots.Event → Drain → Worker
  at_work seen d = record { loop = loop seen; drain = d }

  -- After any events, from what the drain knows after some events of the loop.
  abbrev KnowsWorker : Worker → Type 0
  KnowsWorker w = Knows w.drain w.loop

  drive-Knows :
      (es : List Event) (seen : List Slots.Event) (d : Drain)
      → Knows d (loop seen)
      → KnowsWorker (drive (at_work seen d) es)
  unfolding drive react
  drive-Knows [] seen d h = h
  drive-Knows (loop_event e ∷ es) seen d h =
      subst (λ l. KnowsWorker (drive (record { loop = l; drain = d }) es))
        (run-more seen e (Slots.start slots))
        (drive-Knows es (seen ++ (e ∷ [])) d (
          subst (Knows d) (sym (run-more seen e (Slots.start slots)))
            (Knows-step d (loop seen) e h)))
  drive-Knows (drain_called ∷ es) seen d h =
      subst (λ l. KnowsWorker (drive (record { loop = l; drain = on_called d }) es))
        (run-more seen stop (Slots.start slots))
        (drive-Knows es (seen ++ (stop ∷ [])) (on_called d) (
          subst (Knows (on_called d)) (sym (run-more seen stop (Slots.start slots)))
            (Knows-called d (loop seen) h)))
  drive-Knows (race_over ∷ es) seen d h =
      drive-Knows es seen (on_race_over d) (Knows-race_over d (loop seen) h)
  drive-Knows (polled late ∷ es) seen d h =
      drive-Knows es seen (on_polled late (in_flight (loop seen).slots) d)
        (Knows-polled late seen d h)

  later-IsEmpty :
      (later : List Event) (n : ℕ) (l : Loop)
      → IsEmpty l
      → IsEmpty (drive (record { loop = l; drain = decided n }) later).loop
  unfolding drive react on_called on_race_over on_polled
  later-IsEmpty [] n l h = h
  later-IsEmpty (loop_event e ∷ later) n l h =
      later-IsEmpty later n (step l e)
        (IsEmpty-step l.slots l.phase l.executions l.stopping e h.0 h.1 h.2)
  later-IsEmpty (drain_called ∷ later) n l h =
      later-IsEmpty later n (step l stop)
        (IsEmpty-step l.slots l.phase l.executions l.stopping stop h.0 h.1 h.2)
  later-IsEmpty (race_over ∷ later) n l h = later-IsEmpty later n l h
  later-IsEmpty (polled late ∷ later) n l h = later-IsEmpty later n l h

  drive-append :
      (es later : List Event) (w : Worker) → drive w (es ++ later) ≡ drive (drive w es) later
  unfolding drive
  drive-append [] later w = refl
  drive-append (e ∷ es) later w = drive-append es later (react w e)

  -- For a new semaphore with the worker's concurrency as its capacity, and any sequence of
  -- events of the main loop and the drain: once the drain has seen no slot in flight in its
  -- last reading, and so lets go of the heartbeat, no execution runs, the loop is neither in
  -- BLMOVE nor waiting for a slot, and it stays so whatever events follow.
  pub drive-IsEmpty :
      (es later : List Event)
      → (drive (start slots) es).drain ≡ decided 0
      → IsEmpty (drive (start slots) (es ++ later)).loop
  unfolding start Slots.start run
  drive-IsEmpty es later e =
      let w = drive (start slots) es in
      let known : Knows w.drain w.loop = drive-Knows es [] idle tt in
      let empty : IsEmpty w.loop = subst (λ d. Knows d w.loop) e known in
      subst (λ v. IsEmpty v.loop) (sym (drive-append es later (start slots)))
        (subst (λ d. IsEmpty (drive (record { loop = w.loop; drain = d }) later).loop) (sym e)
          (later-IsEmpty later 0 w.loop empty))
