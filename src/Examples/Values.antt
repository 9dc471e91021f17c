-- ===== src/Examples/Values.antt =====
-- The results on values at concrete inputs: permits, delays, keys, payloads and parameters.
use queue_flow.Base.{
  min, ◌^◌, ◌+◌, ◌≤◌, ◌≡◌, ◌⊎◌, refl, true, none, [], ◌∷◌, ◌++◌, codes, length, arith, ◌*◌, ◌||◌,
  ◌↔◌,
}
use queue_flow.Retry.{RetryConfig, next_delay_ms, next_delay_ms_bounds}
use queue_flow.Semaphore.{new, acquires, releases, serve_all, start}
use queue_flow.Semaphore.Fair.{callers, count_releases, serve_all-fair}
use queue_flow.Keys.{processing, alive, is_empty, is_one_line}
use queue_flow.Types.{deliver_webhook}
use queue_flow.Types.Validate.{validate_payload}
use queue_flow.Types.Validate.Accepts.{Callable, validate_payload-webhook_iff}
use queue_flow.Api.Reads.{worker_ids}
use queue_flow.Api.Reads.Workers.{worker_ids-contains}
use queue_flow.Store.Redis.{contains}
use queue_flow.Examples.Worlds.{parse_any, webhook}

serve_all-fair_example :
    let v =
      serve_all
        (start (record { capacity = 1; available = 1; waiting = [] }))
        (acquires 7 ∷ acquires 8 ∷ releases ∷ []) in
    (v.served ++ v.semaphore.waiting ≡ 7 ∷ 8 ∷ [])
    × (length v.served ≤ 2)
    × ((v.semaphore.waiting ≡ []) ⊎ (v.semaphore.available ≡ 0))
unfolding new callers count_releases
serve_all-fair_example =
    serve_all-fair 1 (record { capacity = 1; available = 1; waiting = [] })
      (acquires 7 ∷ acquires 8 ∷ releases ∷ []) refl

abbrev usual_retry : RetryConfig
usual_retry = record { base_ms = 1000; max_ms = 60000 }

next_delay_ms_bounds_example :
    (min (2 ^ 3 * 1000) 60000 ≤ next_delay_ms usual_retry 3 12345)
    × (10 * next_delay_ms usual_retry 3 12345 ≤ 13 * min (2 ^ 3 * 1000) 60000 + 5)
next_delay_ms_bounds_example = next_delay_ms_bounds usual_retry 3 12345 (omega arith)

validate_payload-webhook_example :
    (validate_payload true parse_any deliver_webhook webhook ≡ none)
    ↔ Callable true parse_any webhook
validate_payload-webhook_example = validate_payload-webhook_iff true parse_any webhook

worker_ids-contains_example :
    contains (codes "w9") (worker_ids (alive (codes "w1") ∷ []) (processing (codes "w9") ∷ [])) ≡ (
      contains (alive (codes "w9")) (alive (codes "w1") ∷ [])
      || contains (processing (codes "w9")) (processing (codes "w9") ∷ []))
unfolding is_empty is_one_line
worker_ids-contains_example =
    worker_ids-contains (codes "w9") (alive (codes "w1") ∷ []) (processing (codes "w9") ∷ []) refl
      refl
