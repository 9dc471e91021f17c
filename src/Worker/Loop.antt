-- ===== src/Worker/Loop.antt =====
-- src/worker/index.ts around an execution: taking a job off the queue, releasing it, and what a
-- worker that starts does with the jobs of its previous run.
pub mod Ghosts
pub mod Sound
pub mod Recovery
pub mod Serve
use queue_flow.Base.{
  ℕ, zero, suc, ◌+◌, ◌*◌, Bool, true, false, not, ◌&&◌, Option, none, some, List, [], ◌∷◌, Text,
  ltb, if◌then◌else◌,
}
use queue_flow.Keys.{pending, processing, alive}
use queue_flow.Proc.{Proc, done, ◌>>=◌, ◌>>◌, write}
use queue_flow.Types.{JobRow, queued, running, is_uuid}
use queue_flow.Store.Jobs.{update_any}
use queue_flow.Store.Redis.{Redis}
use queue_flow.Store.World.{
  World, lmove_left, lmove_right, lrem_first, lrange, key_exists, read_clock,
}
use queue_flow.Worker.{WorkerConfig, Execution, Outcome, process_one}

pub data Turn : Type 0 where
  idle discarded : Turn
  executed : Outcome → Turn

pub is_running : JobRow → Bool
is_running r = elim r.status [ running ↦ true | _ ↦ false ]

pub set_stranded : JobRow → JobRow
set_stranded r = record r { status = queued; started_at = none }

unfoldable pub keep_uuids : List Text → List Text
keep_uuids [] = []
keep_uuids (x ∷ xs) = let rest = keep_uuids xs in if is_uuid x then x ∷ rest else rest

module _ (R : Redis) where
  -- `processOne(jobId).then(() => lrem(PROCESSING, 1, jobId))`
  pub execute : WorkerConfig → Execution → Text → Proc (World R) Turn
  execute cfg ex id = do
    outcome ← process_one R cfg ex id
    lrem_first R (processing cfg.worker_id) id
    done (executed outcome)

  taken : WorkerConfig → Execution → Option Text → Proc (World R) Turn
  unfolding execute
  taken cfg ex none = done idle
  taken cfg ex (some id) =
      if is_uuid id
      then execute cfg ex id
      else lrem_first R (processing cfg.worker_id) id >> done discarded

  -- One turn of the main loop. BLMOVE waits until there is a job; here it may find none.
  unfoldable pub serve_next : WorkerConfig → Execution → Proc (World R) Turn
  unfolding taken
  serve_next cfg ex = lmove_left R pending (processing cfg.worker_id) >>= taken cfg ex

  -- `while (Date.now() < deadline && exists(aliveKey))`, at most `fuel` polls.
  wait_gone : ℕ → ℕ → Text → Proc (World R) (Unit {0})
  wait_gone zero deadline key = done tt
  wait_gone (suc fuel) deadline key = do
    time ← read_clock R
    present ← key_exists R key
    elim (ltb time deadline && present) [ true ↦ wait_gone fuel deadline key | false ↦ done tt ]

  wait_if : ℕ → ℕ → Text → Bool → Proc (World R) (Unit {0})
  unfolding wait_gone
  wait_if fuel deadline key true = wait_gone fuel deadline key
  wait_if fuel deadline key false = done tt

  -- `while (lmove(…) !== null) moved += 1`; `none`: the fuel ran out.
  move_all : ℕ → Text → ℕ → Proc (World R) (Option ℕ)
  move_all zero key moved = done none
  move_all (suc fuel) key moved = do
    entry ← lmove_right R key pending
    elim entry [ none ↦ done (some moved) | some id ↦ move_all fuel key (moved + 1) ]

  restore : ℕ → Text → List Text → Proc (World R) (Option ℕ)
  unfolding move_all
  restore fuel key [] = done (some 0)
  restore fuel key (id ∷ ids) =
      write (λ w. record w {
        db = record w.db { jobs = update_any (id ∷ ids) is_running set_stranded w.db.jobs };
      })
      >> move_all fuel key 0

  -- Another process with this WORKER_ID is alive: its list is left alone.
  recover_if : ℕ → WorkerConfig → Bool → Proc (World R) (Option ℕ)
  unfolding restore keep_uuids is_running set_stranded
  recover_if fuel cfg true = done (some 0)
  recover_if fuel cfg false = do
    entries ← lrange R (processing cfg.worker_id)
    restore fuel (processing cfg.worker_id) (keep_uuids entries)

  unfoldable pub recover_own_processing : ℕ → ℕ → WorkerConfig → Proc (World R) (Option ℕ)
  unfolding recover_if wait_if
  recover_own_processing fuel ttl_s cfg = do
    time ← read_clock R
    present_first ← key_exists R (alive cfg.worker_id)
    wait_if fuel (time + (ttl_s * 1000 + 1000)) (alive cfg.worker_id) present_first
    present ← key_exists R (alive cfg.worker_id)
    recover_if fuel cfg present
