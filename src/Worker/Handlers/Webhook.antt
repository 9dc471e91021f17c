-- ===== src/Worker/Handlers/Webhook.antt =====
-- src/worker/handlers.ts with src/worker/index.ts: deliveries, by what the receiver answers.
use queue_flow.Base.{
  ℕ, ◌≤◌, ◌≡◌, ◌↔◌, refl, ap, sym, subst, Option, none, some, Text, codes, ◌===◌, arith,
}
use queue_flow.Json.{property}
use queue_flow.Types.{JobRecord, find_job_type, job_types, deliver_webhook}
use queue_flow.Worker.Handlers.{
  Answer, failed, responded, Outside, is_ok, outcome_of, post, show, deliver, run_type, run_handler,
}

outcome_of_iff :
    (out : Outside) (url : Text) (a : Answer)
    → (outcome_of out url a ≡ none) ↔ (
        (status : ℕ) × (body : Option Text) × (a ≡ responded status body)
        × (200 ≤ status)
        × (status ≤ 299))
unfolding outcome_of is_ok
outcome_of_iff out url (failed t reason) = (λ e. cc, λ h. let (s, b, e, l, u) = h in cc)
outcome_of_iff out url (responded status body) = (
  λ e. (status, body, refl, ground arith, ground arith),
  λ h. let (s, b, e, l, u) = h in ground arith,
)

found_webhook :
    (type : Text)
    → type ≡ codes "deliver_webhook"
    → find_job_type job_types type ≡ some deliver_webhook
unfolding find_job_type ◌===◌
found_webhook type e = ap (find_job_type job_types) e

-- For a job of type deliver_webhook: the handler throws no error exactly when the POST is
-- answered with a status from 200 to 299.
pub run_handler-webhook_iff :
    (out : Outside) (job : JobRecord)
    → job.type ≡ codes "deliver_webhook"
    → (run_handler out job ≡ none) ↔ (
        (status : ℕ) × (body : Option Text) × (post out job ≡ responded status body)
        × (200 ≤ status)
        × (status ≤ 299))
unfolding run_handler run_type deliver
run_handler-webhook_iff out job e =
    subst
      (λ o. (run_type out o job ≡ none) ↔ (
        (status : ℕ) × (body : Option Text) × (post out job ≡ responded status body)
        × (200 ≤ status)
        × (status ≤ 299)))
      (sym (found_webhook job.type e))
      (outcome_of_iff out (show out (property job.payload (codes "url"))) (post out job))
