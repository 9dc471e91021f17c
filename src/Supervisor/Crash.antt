-- ===== src/Supervisor/Crash.antt =====
-- src/start.ts: the exit of a child that nobody asked for, and what follows.
use queue_flow.Base.{
  ℕ, ◌≡◌, refl, sym, ap, subst, ◌∙◌, inl, inr, Bool, true, false, ◌||◌, List, [], ◌∷◌, map,
  if◌then◌else◌, arith, Bool-cases, All,
}
use queue_flow.Supervisor.{
  sigterm, Child, serving, stopping, exited, State, Ended, Event, child_exit, was_signalled,
  all_ended, kill, stop_then_exit, same_role, has_running, mark_ended, on_child_exit, end_wait,
  run_dry, react, step, run, Role,
}
use queue_flow.Supervisor.Waits.{all_ended-kill}

-- Exits of children, one after the other.
abbrev pub Exits : Type 0
Exits = List (Role × Ended)

pub exits : Exits → List Event
exits [] = []
exits (x ∷ xs) = child_exit x.0 x.1 ∷ exits xs

unfoldable pub has_exit : Role → Exits → Bool
unfolding same_role
has_exit r [] = false
has_exit r (x ∷ xs) = same_role r x.0 || has_exit r xs

-- A child that runs is among those that exit.
abbrev pub IsCovered : Exits → Child → Type 0
IsCovered xs c = (c.ended || has_exit c.role xs) ≡ true

run-exited :
    (es : List Event) (s : State) (n : ℕ) → s.phase ≡ exited n → (run s es).phase ≡ exited n
unfolding run step
run-exited [] s n e = e
run-exited (x ∷ es) s n e = run-exited es (step s x) n (rw e refl)

all_ended-IsCovered : (cs : List Child) → All (IsCovered []) cs → all_ended cs ≡ true
unfolding all_ended has_exit
all_ended-IsCovered [] h = refl
all_ended-IsCovered (c ∷ cs) h = ground (arith, h.0, all_ended-IsCovered cs h.1)

IsCovered-mark :
    (r : Role) (how : Ended) (xs : Exits) (cs : List Child)
    → All (IsCovered ((r, how) ∷ xs)) cs
    → All (IsCovered xs) (mark_ended r cs)
unfolding has_exit mark_ended
IsCovered-mark r how xs [] h = tt
IsCovered-mark r how xs (c ∷ cs) h = elim (Bool-cases (same_role c.role r)) [
  | inl same ↦ rw same (refl, IsCovered-mark r how xs cs h.1)
  | inr other ↦ let first = rw other at h.0 in rw other (first, IsCovered-mark r how xs cs h.1)
]

-- Without such a child, the exit changes nothing.
mark_ended-none : (r : Role) (cs : List Child) → has_running r cs ≡ false → mark_ended r cs ≡ cs
unfolding has_running mark_ended
mark_ended-none r [] e = refl
mark_ended-none r (c ∷ cs) e = elim (Bool-cases (same_role c.role r)) [
  | inl same ↦
      let gone : c.ended ≡ true = ground arith in
      let rest : has_running r cs ≡ false = ground arith in
      rw (same, mark_ended-none r cs rest) (ap (λ b. record c { ended = b } ∷ cs) (sym gone))
  | inr other ↦
      let rest : has_running r cs ≡ false = ground arith in
      rw (other, mark_ended-none r cs rest) refl
]

-- stop waits, and the process then exits with the code.
abbrev waiting : ℕ → List Child → State
waiting n cs = record { phase = stopping n; shutting_down = true; children = cs }

done_waiting : ℕ → List Child → State
done_waiting n cs =
    if all_ended cs then record (waiting n cs) { phase = exited n } else waiting n cs

run_dry-done : (n : ℕ) (cs : List Child) → run_dry (done_waiting n cs) ≡ done_waiting n cs
unfolding run_dry done_waiting
run_dry-done n cs = elim (Bool-cases (all_ended cs)) [
  | inl done ↦ rw done refl
  | inr more ↦ rw more refl
]

step-waiting :
    (n : ℕ) (cs : List Child) (r : Role) (how : Ended)
    → step (waiting n cs) (child_exit r how)
      ≡ (if has_running r cs then done_waiting n (mark_ended r cs) else waiting n cs)
unfolding step react on_child_exit end_wait run_dry done_waiting
step-waiting n cs r how = elim (Bool-cases (has_running r cs)) [
  | inr idle ↦ rw idle refl
  | inl runs ↦ rw runs (run_dry-done n (mark_ended r cs))
]

run-done :
    (xs : Exits) (n : ℕ) (cs : List Child)
    → (all_ended cs ≡ false → (run (waiting n cs) (exits xs)).phase ≡ exited n)
    → (run (done_waiting n cs) (exits xs)).phase ≡ exited n
unfolding done_waiting
run-done xs n cs more = elim (Bool-cases (all_ended cs)) [
  | inl done ↦ rw done (run-exited (exits xs) (record (waiting n cs) { phase = exited n }) n refl)
  | inr e ↦ rw e (more e)
]

run-waiting :
    (xs : Exits) (n : ℕ) (cs : List Child)
    → all_ended cs ≡ false
    → All (IsCovered xs) cs
    → (run (waiting n cs) (exits xs)).phase ≡ exited n
unfolding run exits
run-waiting [] n cs a h = ground (arith, all_ended-IsCovered cs h)
run-waiting ((r, how) ∷ xs) n cs a h =
    let left = mark_ended r cs in
    let rest = IsCovered-mark r how xs cs h in
    let Goal : State → Type 0 = λ s. (run s (exits xs)).phase ≡ exited n in
    elim (Bool-cases (has_running r cs)) [
      | inr idle ↦
          let stays : step (waiting n cs) (child_exit r how) ≡ waiting n cs =
            step-waiting n cs r how ∙ rw idle refl in
          subst Goal (sym stays) (run-waiting xs n cs a (rw (mark_ended-none r cs idle) at rest))
      | inl runs ↦
          let goes : step (waiting n cs) (child_exit r how) ≡ done_waiting n left =
            step-waiting n cs r how ∙ rw runs refl in
          subst Goal (sym goes) (run-done xs n left (λ e. run-waiting xs n left e rest))
    ]

module _ (r : Role) (how : Ended) (xs : Exits) (cs : List Child) where
  IsCovered-kill :
      (cs' : List Child) → All (IsCovered xs) cs' → All (IsCovered xs) (map (kill sigterm) cs')
  unfolding kill
  IsCovered-kill [] h = tt
  IsCovered-kill (c ∷ cs') h = (h.0, IsCovered-kill cs' h.1)

  step-crash :
      has_running r cs ≡ true
      → was_signalled how ≡ false
      → step (record { phase = serving; shutting_down = false; children = cs }) (child_exit r how)
        ≡ done_waiting 1 (map (kill sigterm) (mark_ended r cs))
  unfolding step react on_child_exit end_wait run_dry done_waiting stop_then_exit
  step-crash runs crash =
      rw (runs, crash) (ground (arith, all_ended-kill sigterm (mark_ended r cs)))

  -- While the roles are up, a running child exits without a signal, and the exits that follow
  -- cover every child that still runs: the supervisor then exits, with code 1.
  pub run-crash :
      has_running r cs ≡ true
      → was_signalled how ≡ false
      → All (IsCovered ((r, how) ∷ xs)) cs
      → (run
          (record { phase = serving; shutting_down = false; children = cs })
          (exits ((r, how) ∷ xs))).phase
        ≡ exited 1
  unfolding run exits
  run-crash runs crash h =
      let killed = map (kill sigterm) (mark_ended r cs) in
      let rest = IsCovered-kill (mark_ended r cs) (IsCovered-mark r how xs cs h) in
      let Goal : State → Type 0 = λ s. (run s (exits xs)).phase ≡ exited 1 in
      subst Goal (sym (step-crash runs crash))
        (run-done xs 1 killed (λ e. run-waiting xs 1 killed e rest))
