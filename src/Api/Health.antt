-- ===== src/Api/Health.antt =====
-- src/api/index.ts: GET /health with stores that may fail, GET /live, and what express answers
-- where no route answers or a handler throws.
use queue_flow.Base.{
  ℕ, ◌≡◌, ◌↔◌, refl, Bool, true, false, Option, none, some, Text, codes, if◌then◌else◌, arith,
}
use queue_flow.Keys.{pending}
use queue_flow.Proc.{Proc, done, ◌>>=◌, read, result}
use queue_flow.Types.{JobStatus}
use queue_flow.Store.Redis.{Redis}
use queue_flow.Store.World.{World}
use queue_flow.Api.Reads.{count_status}

-- The command to Redis that fails, with its message.
pub data RedisFailure : Type 0 where
  ping_fails llen_fails zcard_fails : Text → RedisFailure

-- `health`; a field that is not set is `none`.
pub record Report : Type 0 where
  pub is_ok : Bool
  pub redis : Text
  pub pending : Option ℕ
  pub delayed : Option ℕ
  pub postgres : Text
  pub jobs : Option (JobStatus → ℕ)

abbrev unread : Report
unread = record {
  is_ok = true;
  redis = codes "";
  pending = none;
  delayed = none;
  postgres = codes "";
  jobs = none;
}

module _ (R : Redis) where
  -- The first `try` block.
  read_redis : Option RedisFailure → Report → Proc (World R) Report
  read_redis none h = do
    waiting ← read (λ w. R.llen w.lists pending)
    parked ← read (λ w. R.zcard w.delayed)
    done (record h { redis = codes "PONG"; pending = some waiting; delayed = some parked })
  read_redis (some (ping_fails m)) h = done (record h { is_ok = false; redis = m })
  read_redis (some (llen_fails m)) h = done (record h { is_ok = false; redis = m })
  read_redis (some (zcard_fails m)) h = do
    waiting ← read (λ w. R.llen w.lists pending)
    done (record h { is_ok = false; redis = m; pending = some waiting })

  -- The second one.
  read_postgres : Option Text → Report → Proc (World R) Report
  read_postgres none h = do
    counts ← read (λ w. λ s. count_status s w.db.jobs)
    done (record h { postgres = codes "ok"; jobs = some counts })
  read_postgres (some m) h = done (record h { is_ok = false; postgres = m })

  -- GET /health: the status code and the body.
  unfoldable pub health : Option RedisFailure → Option Text → Proc (World R) (ℕ × Report)
  unfolding read_redis read_postgres
  health redis_error postgres_error = do
    h ← read_redis redis_error unread
    k ← read_postgres postgres_error h
    done (if k.is_ok then 200 else 503, k)

module _ (R : Redis) (w : World R) where
  degraded :
      (r : Option RedisFailure) (p : Option Text)
      → ((r ≡ none) × (p ≡ none) → ⊥)
      → (◌≡◌ {A = ℕ} 503 200) ↔ ((r ≡ none) × (p ≡ none))
  degraded r p refuse = (λ e. absurd (omega (arith, e)), λ h. absurd (refuse h))

  -- The status is 200 exactly when both stores answer.
  health-ok_iff :
      (r : Option RedisFailure) (p : Option Text)
      → ((result (health R r p) w).0 ≡ 200) ↔ ((r ≡ none) × (p ≡ none))
  unfolding health read_redis read_postgres
  health-ok_iff none none = (λ e. (refl, refl), λ h. refl)
  health-ok_iff none (some m) = degraded none (some m) (λ h. let e = h.1 in cc)
  health-ok_iff (some (ping_fails m)) none = degraded _ _ (λ h. let e = h.0 in cc)
  health-ok_iff (some (ping_fails m)) (some n) = degraded _ _ (λ h. let e = h.0 in cc)
  health-ok_iff (some (llen_fails m)) none = degraded _ _ (λ h. let e = h.0 in cc)
  health-ok_iff (some (llen_fails m)) (some n) = degraded _ _ (λ h. let e = h.0 in cc)
  health-ok_iff (some (zcard_fails m)) none = degraded _ _ (λ h. let e = h.0 in cc)
  health-ok_iff (some (zcard_fails m)) (some n) = degraded _ _ (λ h. let e = h.0 in cc)

-- GET /live touches neither store.
live : ℕ × Text
live = (200, codes "ok")

-- What a handler throws: a BadRequest with its message, or anything else.
pub data Thrown : Type 0 where
  bad_request : Text → Thrown
  unexpected : Thrown

-- `api.use((_req, res) => …)`, after all routes.
no_route : ℕ × Text
no_route = (404, codes "not found")

-- `api.use((err, …) => …)`: what was thrown unexpectedly is not shown.
on_error : Thrown → ℕ × Text
on_error (bad_request m) = (400, m)
on_error unexpected = (500, codes "internal error")
