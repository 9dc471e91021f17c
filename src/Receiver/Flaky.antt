-- ===== src/Receiver/Flaky.antt =====
-- src/receiver/index.ts: POST /hook/flaky/:failures for one job, again and again.
use native.Mathlib.Nat.{mul_comm, mul-le-mul_left, le_of_mul-le-mul_left}
use queue_flow.Base.{
  ℕ, suc, ◌+◌, ◌-◌, ◌*◌, ◌^◌, ◌<◌, ◌≤◌, ◌≡◌, refl, inl, inr, List, [], ◌∷◌, Text, ◌===◌, ===_refl,
  if◌then◌else◌, arith, min, length, leb, Bool-cases, All, ◌==◌,
}
use queue_flow.Json.{Number, Value, str}
use queue_flow.Receiver.{
  Counts, State, count_of, set_count, Request, job_of, record_delivery, post_flaky, whole,
  is_within,
}

up : (a b u : ℕ) → a ≤ b → a * u ≤ b * u
up a b u h = rw (mul_comm a u, mul_comm b u) (mul-le-mul_left u h)

down : (a b u : ℕ) → 0 < u → a * u ≤ b * u → a ≤ b
down a b u h e = le_of_mul-le-mul_left (rw (mul_comm a u, mul_comm b u) at e) h

scaled-leb : (a b u : ℕ) → 0 < u → leb (a * u) (b * u) ≡ leb a b
scaled-leb a b u h = ground (arith, up a b u, down a b u h)

is_within-whole : (a b : ℕ) → is_within a (whole b) ≡ leb a b
unfolding is_within whole
is_within-whole a b = scaled-leb a b (2 ^ 1074) (omega arith)

count_of-set : (id : Text) (c : ℕ) (m : Counts) → count_of id (set_count id c m) ≡ c
unfolding count_of set_count
count_of-set id c [] = rw (===_refl id) refl
count_of-set id c ((k, n) ∷ m) = elim (Bool-cases (k === id)) [
  | inl same ↦ rw same (rw same refl)
  | inr other ↦ rw other (rw other (count_of-set id c m))
]

module _ (number : Value → Number) (param id : Text) where
  -- How many of the deliveries are answered with 503.
  pub count_failed : List Request → State → ℕ
  count_failed [] s = 0
  count_failed (r ∷ rs) s =
      let (s', reply) = post_flaky number param r s in
      let n = count_failed rs s' in if reply.status == 503 then suc n else n

  abbrev pub IsFor : Request → Type 0
  IsFor r = job_of r ≡ id

  count_failed-left :
      (k : ℕ) (rs : List Request) (s : State)
      → number (str param) ≡ whole k
      → All IsFor rs
      → count_failed rs s ≡ min (length rs) (k - count_of id s.deliveries)
  unfolding count_failed post_flaky record_delivery
  count_failed-left k [] s e h = omega arith
  count_failed-left k (r ∷ rs) s e h =
      let c = count_of id s.deliveries + 1 in
      let s' : State = record s { deliveries = set_count id c s.deliveries } in
      let seen = count_of-set id c s.deliveries in
      let rest = count_failed-left k rs s' e h.1 in
      elim (Bool-cases (leb c k)) [
        | inl low ↦ rw (h.0, e, seen, is_within-whole c k, low) (ground (arith, seen, rest, low))
        | inr high ↦ rw (h.0, e, seen, is_within-whole c k, high) (ground (arith, seen, rest, high))
      ]

  -- For a job not yet delivered and a parameter that Number() reads as a whole number: of any
  -- number of deliveries of that job to /hook/flaky, as many are answered with 503 as the
  -- parameter says, or all where there are fewer.
  pub post_flaky-recovers :
      (k : ℕ) (rs : List Request) (s : State)
      → number (str param) ≡ whole k
      → All IsFor rs
      → count_of id s.deliveries ≡ 0
      → count_failed rs s ≡ min (length rs) k
  post_flaky-recovers k rs s e h zero_seen = omega (arith, count_failed-left k rs s e h, zero_seen)
