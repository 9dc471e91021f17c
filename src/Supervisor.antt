-- ===== src/Supervisor.antt =====
-- src/start.ts: the process that starts the API, a worker and the scheduler, as the events that its
-- callbacks react to. An event of a process that cannot be (a second exit of one child, an exit
-- before the start) changes nothing. The log is left out, and so is a child that cannot be spawned.
pub mod Waits
pub mod Crash
use queue_flow.Base.{
  ℕ, Bool, true, false, not, ◌&&◌, ◌||◌, Option, none, some, List, [], ◌∷◌, map, ◌==◌,
  if◌then◌else◌,
}

pub data Role : Type 0 where
  api worker scheduler : Role

pub data Signal : Type 0 where
  sigterm sigint other_signal : Signal

pub record Child : Type 0 where
  pub role : Role
  pub ended : Bool  -- exitCode or signalCode is not null
  pub killed : Option Signal  -- what child.kill sent last

-- `stopping code`: a call of stop waits for the children, and then exits with the code.
pub data Phase : Type 0 where
  migrating serving : Phase
  stopping exited : ℕ → Phase

pub record State : Type 0 where
  pub phase : Phase
  pub shutting_down : Bool
  pub children : List Child

-- The exit code, or the signal that ended a process.
pub data Ended : Type 0 where
  code : ℕ → Ended
  by_signal : Signal → Ended

pub data Event : Type 0 where
  signal : Signal → Event  -- SIGTERM or SIGINT
  migrated : Ended → Event
  migrate_error : Event
  child_exit : Role → Ended → Event

unfoldable pub was_signalled : Ended → Bool
was_signalled (by_signal sigterm) = true
was_signalled (by_signal sigint) = true
was_signalled (by_signal other_signal) = false
was_signalled (code n) = n == 143 || n == 130

unfoldable pub roles : List Role
roles = api ∷ worker ∷ scheduler ∷ []

unfoldable pub new_child : Role → Child
new_child role = record { role = role; ended = false; killed = none }

unfoldable pub start_roles : State → State
unfolding new_child roles
start_roles s = record s { phase = serving; children = map new_child roles }

unfoldable pub all_ended : List Child → Bool
all_ended [] = true
all_ended (c ∷ cs) = c.ended && all_ended cs

-- `child.kill(signal)`, which does nothing to a child that has ended
unfoldable pub kill : Signal → Child → Child
kill sig c = record c { killed = if c.ended then c.killed else some sig }

-- stop(signal), and then process.exit(n): a call that finds another one under way returns at once.
unfoldable pub stop_then_exit : Signal → ℕ → State → State
unfolding all_ended kill
stop_then_exit sig n s = if s.shutting_down then record s { phase = exited n } else record {
  phase = if all_ended s.children then exited n else stopping n;
  shutting_down = true;
  children = map (kill sig) s.children;
}

unfoldable pub same_role : Role → Role → Bool
same_role api api = true
same_role worker worker = true
same_role scheduler scheduler = true
same_role _ _ = false

unfoldable pub has_running : Role → List Child → Bool
unfolding same_role
has_running r [] = false
has_running r (c ∷ cs) = (same_role c.role r && not c.ended) || has_running r cs

unfoldable pub mark_ended : Role → List Child → List Child
unfolding same_role
mark_ended r [] = []
mark_ended r (c ∷ cs) =
    let rest = mark_ended r cs in
    if same_role c.role r then record c { ended = true } ∷ rest else c ∷ rest

-- The listener that startRoles adds to a child.
unfoldable pub on_child_exit : Ended → State → State
unfolding was_signalled stop_then_exit
on_child_exit how s = if s.shutting_down || was_signalled how then s else stop_then_exit sigterm 1 s

-- The listeners that stop adds: the wait is over when the last child has ended.
unfoldable pub end_wait : State → State
unfolding all_ended
end_wait s = elim s.phase [
  | stopping n ↦ if all_ended s.children then record s { phase = exited n } else s
  | _ ↦ s
]

-- A process with no child left and nothing else to wait for ends by itself, with code 0: the
-- listeners of signals do not keep it up.
unfoldable pub run_dry : State → State
unfolding all_ended
run_dry s = elim s.phase [
  | serving ↦ if all_ended s.children then record s { phase = exited 0 } else s
  | _ ↦ s
]

unfoldable pub after_migration : Ended → State → State
unfolding start_roles
after_migration (code n) s = if n == 0 then start_roles s else record s { phase = exited 1 }
after_migration (by_signal sig) s = record s { phase = exited 1 }

unfoldable pub react : State → Event → State
unfolding stop_then_exit after_migration has_running mark_ended on_child_exit end_wait run_dry
react s (signal sig) = stop_then_exit sig 0 s
react s (migrated how) = elim s.phase [ migrating ↦ after_migration how s | _ ↦ s ]
react s migrate_error = elim s.phase [ migrating ↦ record s { phase = exited 1 } | _ ↦ s ]
react s (child_exit r how) =
    if has_running r s.children
    then run_dry (end_wait (on_child_exit how (record s { children = mark_ended r s.children })))
    else s

-- Nothing happens after process.exit.
unfoldable pub step : State → Event → State
unfolding react
step s e = elim s.phase [ exited n ↦ s | _ ↦ react s e ]

unfoldable pub run : State → List Event → State
unfolding step
run s [] = s
run s (e ∷ es) = run (step s e) es

abbrev pub start : State
start = record { phase = migrating; shutting_down = false; children = [] }
