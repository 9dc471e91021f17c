-- ===== src/Worker/Drain.antt =====
-- src/worker/index.ts: drain, as far as it reads the slots and touches the heartbeat. `in_flight n`
-- is what slots.inFlight is at its n-th reading, which the executions decide. The sleeps between the
-- polls, the log and the closing of connections leave nothing in the world.
use queue_flow.Base.{
  ℕ, zero, suc, ◌+◌, ◌≡◌, ◌⊎◌, refl, inl, inr, Bool, true, false, ◌&&◌, Option, none, some, ltb,
  ◌==◌, ==_iff, Bool-cases,
}
use queue_flow.Keys.{alive}
use queue_flow.Proc.{Proc, done, ◌>>=◌, ◌>>◌, write, AlwaysFrom}
use queue_flow.Store.Redis.{Redis}
use queue_flow.Store.World.{World, read_clock}
use queue_flow.Worker.{WorkerConfig}

module _ (R : Redis) (in_flight : ℕ → ℕ) where
  -- `while (slots.inFlight > 0 && Date.now() < deadline)`: the number of the reading after it;
  -- `none` where the fuel ran out.
  wait_idle : ℕ → ℕ → ℕ → Proc (World R) (Option ℕ)
  wait_idle zero deadline n = done none
  wait_idle (suc fuel) deadline n = do
    time ← read_clock R
    elim (ltb 0 (in_flight n) && ltb time deadline) [
      | true ↦ wait_idle fuel deadline (n + 1)
      | false ↦ done (some (n + 1))
    ]

  -- `abandoned === 0`: the key goes only if no job is left; the number of jobs left.
  let_go : WorkerConfig → ℕ → Bool → Proc (World R) (Option ℕ)
  let_go cfg abandoned true =
      write (λ w. record w { beats = R.del w.beats (alive cfg.worker_id) }) >> done (some abandoned)
  let_go cfg abandoned false = done (some abandoned)

  after_wait : WorkerConfig → Option ℕ → Proc (World R) (Option ℕ)
  unfolding let_go
  after_wait cfg none = done none
  after_wait cfg (some n) = let_go cfg (in_flight n) (in_flight n == 0)

  unfoldable pub drain : ℕ → ℕ → WorkerConfig → Proc (World R) (Option ℕ)
  unfolding wait_idle after_wait
  drain fuel shutdown_timeout_ms cfg = do
    time ← read_clock R
    idle ← wait_idle fuel (time + shutdown_timeout_ms) 1
    after_wait cfg idle

  -- Command `c` changes nothing, or the heartbeat goes and reading `c` shows no job in flight.
  -- Command 0 gives the deadline, after reading 0 (`held`); each poll makes one reading and then
  -- one command, and `abandoned` is the reading before the DEL. So reading `c` is the last one
  -- that is made before command `c`.
  abbrev pub LetsGo : WorkerConfig → ℕ → World R → World R → Type 0
  LetsGo cfg c w w' =
      (w' ≡ w)
      ⊎ ((in_flight c ≡ 0) × (w' ≡ record w { beats = R.del w.beats (alive cfg.worker_id) }))

  let_go-LetsGo :
      (cfg : WorkerConfig) (n : ℕ) (idle : Bool)
      → (in_flight n == 0) ≡ idle
      → AlwaysFrom (LetsGo cfg) n (let_go cfg (in_flight n) idle)
  unfolding let_go
  let_go-LetsGo cfg n true e = λ w. (inr ((==_iff (in_flight n) 0).0 e, refl), tt)
  let_go-LetsGo cfg n false e = tt

  wait_idle-LetsGo :
      (cfg : WorkerConfig) (fuel deadline n : ℕ)
      → AlwaysFrom (LetsGo cfg) n (wait_idle fuel deadline n >>= after_wait cfg)
  unfolding wait_idle after_wait
  wait_idle-LetsGo cfg zero deadline n = tt
  wait_idle-LetsGo cfg (suc fuel) deadline n = λ w. (
    inl refl,
    elim (Bool-cases (ltb 0 (in_flight n) && ltb w.clock deadline)) [
      | inl e ↦ rw e (wait_idle-LetsGo cfg fuel deadline (n + 1))
      | inr e ↦ rw e (let_go-LetsGo cfg (n + 1) (in_flight (n + 1) == 0) refl)
    ],
  )

  -- Whatever the readings of the slots, and in whatever state each command is met: every
  -- command of a drain leaves the world as it is, or deletes the worker's own heartbeat, and
  -- then the last reading of the slots before it shows no job in flight.
  pub drain-LetsGo :
      (cfg : WorkerConfig) (fuel shutdown_timeout_ms : ℕ)
      → AlwaysFrom (LetsGo cfg) 0 (drain fuel shutdown_timeout_ms cfg)
  unfolding drain
  drain-LetsGo cfg fuel shutdown_timeout_ms =
      λ w. (inl refl, wait_idle-LetsGo cfg fuel (w.clock + shutdown_timeout_ms) 1)
