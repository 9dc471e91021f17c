-- ===== src/Shutdown/Once.antt =====
-- src/shared/shutdown.ts: any sequence of signals and ends of the drain.
use queue_flow.Base.{ℕ, ◌≤◌, ◌≡◌, ◌↔◌, refl, List, [], ◌∷◌, arith}
use queue_flow.Shutdown.{
  draining, exited, State, Event, signal, drained, drain_failed, on_signal, finish, step, run,
  start,
}

-- The first event that counts is the end of a drain that went well.
pub IsDrained : List Event → Type 0
IsDrained [] = ⊥
IsDrained (signal ∷ _) = ⊥
IsDrained (drained ∷ _) = Unit
IsDrained (drain_failed ∷ _) = ⊥

-- Right after the first signal the drain ends, and it went well.
pub IsClean : List Event → Type 0
unfolding IsDrained
IsClean [] = ⊥
IsClean (signal ∷ es) = IsDrained es
IsClean (drained ∷ es) = IsClean es
IsClean (drain_failed ∷ es) = IsClean es

run-exited :
    (es : List Event) (code n : ℕ)
    → run (record { phase = exited code; drains = n }) es
      ≡ record { phase = exited code; drains = n }
unfolding run step on_signal finish
run-exited [] code n = refl
run-exited (signal ∷ es) code n = run-exited es code n
run-exited (drained ∷ es) code n = run-exited es code n
run-exited (drain_failed ∷ es) code n = run-exited es code n

Holds : State → Type 0 → Type 0
Holds s P = (s.drains ≤ 1) × (s.phase ≡ exited 0 ↔ P)

holds_draining :
    (es : List Event) → Holds (run (record { phase = draining; drains = 1 }) es) (IsDrained es)
unfolding Holds run step on_signal finish IsDrained
holds_draining [] = ground arith
holds_draining (signal ∷ es) = ground (arith, run-exited es 1 1)
holds_draining (drained ∷ es) = ground (arith, run-exited es 0 1)
holds_draining (drain_failed ∷ es) = ground (arith, run-exited es 1 1)

-- For any sequence of signals and ends of the drain: the drain is called at most once, and the
-- process exits with 0 exactly when the first signal is followed at once by an end of the drain
-- that went well.
pub run-IsClean_iff :
    (es : List Event) → ((run start es).drains ≤ 1) × ((run start es).phase ≡ exited 0 ↔ IsClean es)
unfolding Holds run step on_signal finish IsClean
run-IsClean_iff [] = ground arith
run-IsClean_iff (signal ∷ es) = holds_draining es
run-IsClean_iff (drained ∷ es) = run-IsClean_iff es
run-IsClean_iff (drain_failed ∷ es) = run-IsClean_iff es
