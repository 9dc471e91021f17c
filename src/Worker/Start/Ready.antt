-- ===== src/Worker/Start/Ready.antt =====
-- src/worker/index.ts: the state in which main enters its loop.
use queue_flow.Base.{
  ℕ, ◌+◌, ◌*◌, ◌<◌, ◌≡◌, ◌∙◌, refl, sym, subst, true, false, Option, some, Text, ===_refl, length,
  ltb,
}
use queue_flow.Keys.{processing, alive}
use queue_flow.Proc.{done, ◌>>◌, result, final, result-bind, final-bind}
use queue_flow.Store.Redis.{Redis, contains}
use queue_flow.Types.{is_uuid}
use queue_flow.Store.World.{World}
use queue_flow.Worker.{WorkerConfig}
use queue_flow.Worker.Loop.{recover_own_processing}
use queue_flow.Worker.Loop.Recovery.{Recovered, recover_own_processing-restores}
use queue_flow.Worker.Start.{start_up}
use queue_flow.Heartbeat.{beat}

module _ (R : Redis) (cfg : WorkerConfig) where
  -- The jobs of the previous run are back, and the heartbeat lasts for its time to live.
  abbrev pub Ready : ℕ → World R → World R → Type 0
  Ready ttl_s s t =
      Recovered R cfg s t
      × ((later : ℕ)
          → R.exists t.beats later (alive cfg.worker_id) ≡ ltb later (s.clock + ttl_s * 1000))

  beaten :
      (ttl_s : ℕ) (pid : Text) (s t : World R)
      → Recovered R cfg s t
      → Ready ttl_s s (final (beat R ttl_s pid cfg.worker_id) t)
  unfolding beat
  beaten ttl_s pid s t h = (
    h,
    λ later.
        rw
          (
            R.exists-set_ex t.beats t.clock later ttl_s (alive cfg.worker_id) pid
                (alive cfg.worker_id),
            ===_refl (alive cfg.worker_id),
            h.5,
          )
          refl,
  )

  -- Uninterrupted, where no process beats under the worker's id, some entry of its processing
  -- list is a uuid, and the fuel is more than the list is long: when the worker enters its
  -- loop, all entries of the list have gone to the tail of the pending one, the last entry
  -- first, the rows that are running under a uuid among the entries are queued without a start
  -- and all other rows, the effects and the delayed set are as they were, and the worker's
  -- heartbeat lasts for its time to live.
  pub start_up-Ready :
      (fuel ttl_s : ℕ) (pid uuid : Text) (s : World R)
      → R.exists s.beats s.clock (alive cfg.worker_id) ≡ false
      → contains uuid (R.lrange s.lists (processing cfg.worker_id)) ≡ true
      → is_uuid uuid ≡ true
      → length (R.lrange s.lists (processing cfg.worker_id)) < fuel
      → (result (start_up R fuel ttl_s pid cfg) s
          ≡ some (length (R.lrange s.lists (processing cfg.worker_id))))
        × Ready ttl_s s (final (start_up R fuel ttl_s pid cfg) s)
  unfolding start_up beat
  start_up-Ready fuel ttl_s pid uuid s gone among valid h =
      let p = recover_own_processing R fuel ttl_s cfg in
      let next = λ (moved : Option ℕ). beat R ttl_s pid cfg.worker_id >> done moved in
      let (same, recovered) =
        recover_own_processing-restores R cfg fuel ttl_s uuid s gone among valid h in
      (
        result-bind p next s ∙ same,
        subst (Ready ttl_s s) (sym (final-bind p next s))
            (beaten ttl_s pid s (final p s) recovered),
      )
