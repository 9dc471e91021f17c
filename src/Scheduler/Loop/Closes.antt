-- ===== src/Scheduler/Loop/Closes.antt =====
-- src/scheduler/index.ts: when the drain closes the connections, and where the loop is then.
use queue_flow.Base.{◌≡◌, refl, Bool, true, false, List, [], ◌∷◌, ◌++◌, arith, subst, sym}
use queue_flow.Scheduler.Loop.{
  Phase, at_head, passing, left, thrown, Drain, idle, racing, closing, Loop, Event, turn,
  pass_ended, pass_failed, drain_called, time_out, has_exited, on_turn, on_drain, react, step, run,
  start,
}

-- Closed after a race that the loop has won: the loop is out. A drain that has begun stops the loop.
abbrev Orderly : Phase → Bool → Drain → Type 0
Orderly p b idle = b ≡ false
Orderly p b racing = b ≡ true
Orderly p b (closing true) = p ≡ left
Orderly p b (closing false) = b ≡ true

abbrev IsOrderly : Loop → Type 0
IsOrderly l = Orderly l.phase l.stopping l.drain

abbrev loop : Phase → Bool → Drain → Loop
loop p b d = record { phase = p; stopping = b; drain = d }

react-IsOrderly :
    (e : Event) (p : Phase) (b : Bool) (d : Drain)
    → Orderly p b d
    → IsOrderly (react (loop p b d) e)
unfolding react on_turn on_drain has_exited
react-IsOrderly turn at_head true idle h = absurd (ground (arith, h))
react-IsOrderly turn at_head true racing h = refl
react-IsOrderly turn at_head true (closing true) h = refl
react-IsOrderly turn at_head true (closing false) h = h
react-IsOrderly turn at_head false idle h = h
react-IsOrderly turn at_head false racing h = h
react-IsOrderly turn at_head false (closing true) h = absurd (ground (arith, h))
react-IsOrderly turn at_head false (closing false) h = h
react-IsOrderly turn passing b d h = h
react-IsOrderly turn left b d h = h
react-IsOrderly turn thrown b d h = h
react-IsOrderly pass_ended passing b idle h = h
react-IsOrderly pass_ended passing b racing h = h
react-IsOrderly pass_ended passing b (closing true) h = absurd (ground (arith, h))
react-IsOrderly pass_ended passing b (closing false) h = h
react-IsOrderly pass_ended at_head b d h = h
react-IsOrderly pass_ended left b d h = h
react-IsOrderly pass_ended thrown b d h = h
react-IsOrderly pass_failed passing b idle h = h
react-IsOrderly pass_failed passing b racing h = h
react-IsOrderly pass_failed passing b (closing true) h = absurd (ground (arith, h))
react-IsOrderly pass_failed passing b (closing false) h = h
react-IsOrderly pass_failed at_head b d h = h
react-IsOrderly pass_failed left b d h = h
react-IsOrderly pass_failed thrown b d h = h
react-IsOrderly drain_called left b idle h = refl
react-IsOrderly drain_called at_head b idle h = refl
react-IsOrderly drain_called passing b idle h = refl
react-IsOrderly drain_called thrown b idle h = refl
react-IsOrderly drain_called p b racing h = h
react-IsOrderly drain_called p b (closing finished) h = h
react-IsOrderly time_out p b racing h = h
react-IsOrderly time_out p b idle h = h
react-IsOrderly time_out p b (closing finished) h = h

step-IsOrderly :
    (e : Event) (p : Phase) (b : Bool) (d : Drain) → Orderly p b d → IsOrderly (step (loop p b d) e)
unfolding step
step-IsOrderly e at_head b d h = react-IsOrderly e at_head b d h
step-IsOrderly e passing b d h = react-IsOrderly e passing b d h
step-IsOrderly e left b d h = react-IsOrderly e left b d h
step-IsOrderly e thrown b d h = h

run-IsOrderly : (es : List Event) (l : Loop) → IsOrderly l → IsOrderly (run l es)
unfolding run
run-IsOrderly [] l h = h
run-IsOrderly (e ∷ es) l h =
    run-IsOrderly es (step l e) (step-IsOrderly e l.phase l.stopping l.drain h)

step-left : (e : Event) (b : Bool) (d : Drain) → (step (loop left b d) e).phase ≡ left
unfolding step react on_drain
step-left turn b d = refl
step-left pass_ended b d = refl
step-left pass_failed b d = refl
step-left drain_called b idle = refl
step-left drain_called b racing = refl
step-left drain_called b (closing finished) = refl
step-left time_out b idle = refl
step-left time_out b racing = refl
step-left time_out b (closing finished) = refl

-- A loop that is out stays out.
run-left : (es : List Event) (l : Loop) → l.phase ≡ left → (run l es).phase ≡ left
unfolding run
run-left [] l h = h
run-left (e ∷ es) l h = run-left es (step l e) (
    subst (λ p. (step (loop p l.stopping l.drain) e).phase ≡ left) (sym h)
      (step-left e l.stopping l.drain))

run-append : (es later : List Event) (l : Loop) → run l (es ++ later) ≡ run (run l es) later
unfolding run
run-append [] later l = refl
run-append (e ∷ es) later l = run-append es later (step l e)

-- For any sequence of events of the scheduler's loop and its drain: if the drain's race was won
-- by the end of the loop, the loop is out, and no event that follows starts another pass.
pub run-closes :
    (es later : List Event)
    → (run start es).drain ≡ closing true
    → (run start (es ++ later)).phase ≡ left
run-closes es later e =
    let l = run start es in
    subst (λ m. m.phase ≡ left) (sym (run-append es later start))
      (run-left later l (subst (Orderly l.phase l.stopping) e (run-IsOrderly es start refl)))
