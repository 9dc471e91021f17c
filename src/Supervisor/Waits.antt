-- ===== src/Supervisor/Waits.antt =====
-- src/start.ts: any sequence of events in which no signal comes while the process is stopping.
use queue_flow.Base.{◌≡◌, refl, Bool, true, false, ◌||◌, List, [], ◌∷◌, map, arith}
use queue_flow.Supervisor.{
  Signal, Child, migrating, serving, stopping, exited, State, Event, signal, child_exit,
  was_signalled, all_ended, kill, step,
}

-- No signal comes once stop has been called.
unfoldable pub MayCome : Event → Bool → Type 0
MayCome (signal sig) down = down ≡ false
MayCome _ down = Unit

unfoldable pub IsCalm : State → List Event → Type 0
IsCalm s [] = Unit
IsCalm s (e ∷ es) = MayCome e s.shutting_down × IsCalm (step s e) es

abbrev pub is_signal : Event → Bool
is_signal (signal sig) = true
is_signal _ = false

-- A child is ended by SIGTERM or SIGINT, or exits with the code of one.
abbrev pub ends_by_signal : Event → Bool
ends_by_signal (child_exit r how) = was_signalled how
ends_by_signal _ = false

abbrev pub has_cause : Event → Bool
has_cause e = is_signal e || ends_by_signal e

pub any_cause : List Event → Bool
any_cause [] = false
any_cause (e ∷ es) = has_cause e || any_cause es

-- The exit waits for the children, and its code is 0 only once there is a cause for it.
Waits : Bool → State → Type 0
Waits seen s = elim s.phase [
  | exited n ↦ (all_ended s.children ≡ true) × (n ≡ 0 → seen ≡ true)
  | stopping n ↦ (s.shutting_down ≡ true) × (n ≡ 0 → seen ≡ true)
  | serving ↦ s.shutting_down ≡ false
  | migrating ↦ (s.shutting_down ≡ false) × (s.children ≡ [])
]

pub all_ended-kill : (sig : Signal) (cs : List Child) → all_ended (map (kill sig) cs) ≡ all_ended cs
unfolding all_ended kill
all_ended-kill sig [] = refl
all_ended-kill sig (c ∷ cs) = ground (arith, all_ended-kill sig cs)
