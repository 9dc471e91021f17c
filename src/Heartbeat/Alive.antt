-- ===== src/Heartbeat/Alive.antt =====
-- src/shared/heartbeat.ts and src/scheduler/reaper.ts: the reaper after a beat.
use queue_flow.Base.{
  ℕ, ◌+◌, ◌*◌, ◌≡◌, ◌<◌, ◌∙◌, refl, sym, subst, true, false, Option, some, Text, ===_refl, arith,
}
use queue_flow.Keys.{processing, alive, is_empty, worker_id_from_processing_key}
use queue_flow.Keys.Parse.{worker_id-processing_iff}
use queue_flow.Proc.{Proc, result, final}
use queue_flow.Store.Redis.{Redis}
use queue_flow.Store.World.{World}
use queue_flow.Scheduler.Reaper.{reap_key, reap_owner}
use queue_flow.Heartbeat.{beat}

module _ (R : Redis) (ttl_s : ℕ) (pid worker_id : Text) (w : World R) (later : ℕ)
    (fresh : later < w.clock + ttl_s * 1000) where
  abbrev after : World R
  after = record (final (beat R ttl_s pid worker_id) w) { clock = later }

  beat-exists :
      R.exists (R.set_ex w.beats w.clock (alive worker_id) pid ttl_s) later (alive worker_id) ≡ true
  beat-exists =
      R.exists-set_ex w.beats w.clock later ttl_s (alive worker_id) pid (alive worker_id)
      ∙ rw (===_refl (alive worker_id)) (ground arith)

  abbrev Spared : Proc (World R) (Option ℕ) → Type 0
  Spared p = (result p after ≡ some 0) × (final p after ≡ after)

  -- Until the time to live of a worker's last heartbeat has passed, for a worker with a
  -- non-empty id: the reaper, met with the key of that worker's processing list, changes
  -- nothing and counts nothing.
  pub reap_key-spares :
      (fuel : ℕ)
      → is_empty worker_id ≡ false
      → Spared (
          reap_key R fuel
            (processing worker_id)
            (worker_id_from_processing_key (processing worker_id)))
  unfolding beat reap_key reap_owner
  reap_key-spares fuel named =
      subst (λ o. Spared (reap_key R fuel (processing worker_id) o))
        (sym ((worker_id-processing_iff (processing worker_id) worker_id).1 (refl, named)))
        (subst (λ b. Spared (reap_owner R fuel (processing worker_id) worker_id b))
          (sym beat-exists) (refl, refl))
