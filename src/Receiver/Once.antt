-- ===== src/Receiver/Once.antt =====
-- src/receiver/index.ts: any sequence of deliveries.
use queue_flow.Base.{
  ℕ, suc, ◌+◌, ◌≡◌, refl, sym, ap, inl, inr, Bool, true, false, not, ◌&&◌, List, [], ◌∷◌, Text,
  ◌===◌, ===_iff, if◌then◌else◌, arith, min, length, Bool-cases,
}
use queue_flow.Json.{Number, Value}
use queue_flow.Receiver.{
  Counts, State, count_of, set_count, is_applied, add_applied, Request, job_of, record_delivery,
  Body, applied_once, Route, plain, idempotent, down, slow, flaky, post_plain, post_idempotent,
  post_flaky, post_down, post_slow, receive, sum_counts, get_deliveries,
}

-- A request with its route.
abbrev pub Sent : Type 0
Sent = Route × Request

unfoldable pub is_idempotent : Route → Bool
is_idempotent idempotent = true
is_idempotent _ = false

-- POST /hook/idempotent for the job
unfoldable pub is_sent_for : Text → Sent → Bool
unfolding job_of is_idempotent
is_sent_for id (route, r) = is_idempotent route && (job_of r === id)

unfoldable pub count_sent : Text → List Sent → ℕ
count_sent id [] = 0
count_sent id (x ∷ xs) = let n = count_sent id xs in if is_sent_for id x then suc n else n

-- The answer says that the effect is new.
pub is_new : Body → Bool
is_new (applied_once false count) = true
is_new _ = false

is_applied-add :
    (id k : Text) (ks : List Text)
    → is_applied id (add_applied k ks) ≡ (if k === id then true else is_applied id ks)
unfolding is_applied add_applied
is_applied-add id k [] = refl
is_applied-add id k (j ∷ ks) = elim (Bool-cases (j === k)) [
  | inl same ↦ rw (same, sym ((===_iff j k).0 same)) (ground arith)
  | inr other ↦ rw other (ground (arith, is_applied-add id k ks))
]

sum_counts-set :
    (id : Text) (c : ℕ) (m : Counts)
    → sum_counts (set_count id c m) + count_of id m ≡ sum_counts m + c
unfolding sum_counts set_count count_of
sum_counts-set id c [] = omega arith
sum_counts-set id c ((k, n) ∷ m) = elim (Bool-cases (k === id)) [
  | inl same ↦ rw same (omega arith)
  | inr other ↦ rw other (omega (arith, sum_counts-set id c m))
]

abbrev pub empty : State
empty = record { deliveries = []; applied = [] }

module _ (number : Value → Number) where
  pub serve : List Sent → State → State
  serve [] s = s
  serve ((route, r) ∷ xs) s = serve xs (receive number route r s).0

  -- How many answers say that the effect of the job is new.
  pub count_new : Text → List Sent → State → ℕ
  count_new id [] s = 0
  count_new id ((route, r) ∷ xs) s =
      let (s', reply) = receive number route r s in
      let n = count_new id xs s' in
      if is_new reply.body then if job_of r === id then suc n else n else n

  post-counted :
      (route : Route) (r : Request) (s : State)
      → (receive number route r s).0.deliveries
        ≡ set_count (job_of r) (count_of (job_of r) s.deliveries + 1) s.deliveries
  unfolding receive post_plain post_idempotent post_flaky post_down post_slow record_delivery
  post-counted plain r s = refl
  post-counted idempotent r s = ground arith
  post-counted down r s = refl
  post-counted slow r s = refl
  post-counted (flaky param) r s = ground arith

  serve-total :
      (xs : List Sent) (s : State)
      → sum_counts (serve xs s).deliveries ≡ length xs + sum_counts s.deliveries
  unfolding serve
  serve-total [] s = omega arith
  serve-total ((route, r) ∷ xs) s =
      let s' = (receive number route r s).0 in
      let one = ap sum_counts (post-counted route r s) in
      let seen = count_of (job_of r) s.deliveries in
      omega (arith, serve-total xs s', one, sum_counts-set (job_of r) (seen + 1) s.deliveries)

  post-new :
      (route : Route) (r : Request) (s : State)
      → is_new (receive number route r s).1.body
        ≡ (is_idempotent route && not (is_applied (job_of r) s.applied))
  unfolding is_new receive post_plain post_idempotent post_flaky post_down post_slow is_idempotent
      record_delivery
  post-new plain r s = refl
  post-new idempotent r s = ground arith
  post-new down r s = refl
  post-new slow r s = refl
  post-new (flaky param) r s = ground arith

  post-applied :
      (id : Text) (route : Route) (r : Request) (s : State)
      → is_applied id (receive number route r s).0.applied
        ≡ (if is_idempotent route && (job_of r === id) then true else is_applied id s.applied)
  unfolding receive post_plain post_idempotent post_flaky post_down post_slow is_idempotent
      record_delivery
  post-applied id plain r s = refl
  post-applied id idempotent r s = elim (Bool-cases (is_applied (job_of r) s.applied)) [
    | inl old ↦ elim (Bool-cases (job_of r === id)) [
      | inl same ↦ rw (old, same) (rw ((===_iff (job_of r) id).0 same) at old)
      | inr other ↦ rw (old, other) refl
    ]
    | inr fresh ↦ rw fresh (is_applied-add id (job_of r) s.applied)
  ]
  post-applied id down r s = refl
  post-applied id slow r s = refl
  post-applied id (flaky param) r s = ground arith

  serve-new :
      (id : Text) (xs : List Sent) (s : State)
      → count_new id xs s ≡ (if is_applied id s.applied then 0 else min 1 (count_sent id xs))
  unfolding count_new count_sent is_sent_for
  serve-new id [] s = ground arith
  serve-new id ((route, r) ∷ xs) s =
      let s' = (receive number route r s).0 in
      elim (Bool-cases (job_of r === id)) [
        | inl same ↦
            let e = (===_iff (job_of r) id).0 same in
            let new = rw e at (post-new route r s) in
            ground (arith, serve-new id xs s', post-applied id route r s, new)
        | inr other ↦ ground (arith, serve-new id xs s', post-applied id route r s)
      ]

  -- For a receiver just started and any sequence of deliveries to any of its routes: for each
  -- job, one answer says that the effect is new if the job was sent to /hook/idempotent at
  -- all, and none otherwise, and the total of GET /deliveries is the number of deliveries.
  pub post-once :
      (id : Text) (xs : List Sent)
      → (count_new id xs (empty) ≡ min 1 (count_sent id xs))
        × ((get_deliveries (serve xs empty)).total ≡ length xs)
  unfolding get_deliveries is_applied sum_counts
  post-once id xs = (serve-new id xs empty, omega (arith, serve-total xs empty))
