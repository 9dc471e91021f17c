-- ===== src/Semaphore.antt =====
-- src/shared/semaphore.ts: a counting semaphore with a queue of waiters. A waiter is the number of
-- the `acquire` call whose promise it resolves.
pub mod Fair
use queue_flow.Base.{
  ℕ, suc, ◌+◌, ◌-◌, Bool, true, false, Option, none, some, List, [], ◌∷◌, ◌++◌, ltb, leb,
  if◌then◌else◌,
}

pub record Semaphore : Type 0 where
  pub capacity : ℕ
  pub available : ℕ
  pub waiting : List ℕ

-- The constructor refuses a capacity that is not a positive integer.
unfoldable pub new : ℕ → Option Semaphore
new capacity =
    if ltb capacity 1
    then none
    else some (record { capacity = capacity; available = capacity; waiting = [] })

-- The flag tells whether the call returns at once; otherwise its promise is parked.
unfoldable pub acquire : ℕ → Semaphore → Semaphore × Bool
acquire caller s =
    if ltb 0 s.available
    then (record s { available = s.available - 1 }, true)
    else (record s { waiting = s.waiting ++ (caller ∷ []) }, false)

-- The waiter that is resolved, if any.
unfoldable pub release : Semaphore → Semaphore × Option ℕ
release s = elim s.waiting [
  | next ∷ rest ↦ (record s { waiting = rest }, some next)
  | [] ↦ (if ltb s.available s.capacity then record s { available = s.available + 1 } else s, none)
]

unfoldable pub in_flight : Semaphore → ℕ
in_flight s = s.capacity - s.available

pub data Call : Type 0 where
  acquires : ℕ → Call
  releases : Call

-- The semaphore with the callers that were given a permit, in the order in which they were.
pub record Service : Type 0 where
  pub semaphore : Semaphore
  pub served : List ℕ

serve_acquire : Service → ℕ → Semaphore × Bool → Service
serve_acquire v caller (s, now) = record {
  semaphore = s;
  served = if now then v.served ++ (caller ∷ []) else v.served;
}

serve_release : Service → Semaphore × Option ℕ → Service
serve_release v (s, none) = record { semaphore = s; served = v.served }
serve_release v (s, some caller) = record { semaphore = s; served = v.served ++ (caller ∷ []) }

pub serve : Service → Call → Service
unfolding acquire release serve_acquire serve_release
serve v (acquires caller) = serve_acquire v caller (acquire caller v.semaphore)
serve v releases = serve_release v (release v.semaphore)

pub serve_all : Service → List Call → Service
serve_all v [] = v
serve_all v (c ∷ cs) = serve_all (serve v c) cs

pub start : Semaphore → Service
start s = record { semaphore = s; served = [] }
