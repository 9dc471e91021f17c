-- ===== src/Semaphore/Fair.antt =====
-- src/shared/semaphore.ts: sequences of calls.
use mathlib.Core.List.{append_assoc, append-nil}
use native.Mathlib.Nat.{le_trans}
use queue_flow.Base.{
  ℕ, suc, ◌+◌, ◌≤◌, ◌≡◌, ◌∙◌, ◌⊎◌, inl, inr, List, [], ◌∷◌, ◌++◌, some, List-cases, length,
  length-append, arith,
}
use queue_flow.Semaphore.{
  Semaphore, new, Call, acquires, releases, Service, serve, serve_all, start,
}

unfoldable pub callers : List Call → List ℕ
callers [] = []
callers (acquires c ∷ cs) = c ∷ callers cs
callers (releases ∷ cs) = callers cs

unfoldable pub count_releases : List Call → ℕ
count_releases [] = 0
count_releases (acquires c ∷ cs) = count_releases cs
count_releases (releases ∷ cs) = suc (count_releases cs)

-- A permit is free only while nobody waits.
pub record Inv (s : Semaphore) : Type 0 where
  pub bounded : s.available ≤ s.capacity
  pub busy : (s.available ≡ 0) ⊎ (s.waiting ≡ [])

new-Inv : (capacity : ℕ) (s : Semaphore) → new capacity ≡ some s → Inv s
unfolding new
new-Inv capacity s e = ground arith

serve-Inv : (v : Service) (c : Call) → Inv v.semaphore → Inv (serve v c).semaphore
unfolding serve
serve-Inv v (acquires c) h = ground arith
serve-Inv v releases h = ground arith

serve-order :
    (v : Service) (c : Call) (cs : List Call)
    → Inv v.semaphore
    → (serve v c).served ++ ((serve v c).semaphore.waiting ++ callers cs)
      ≡ v.served ++ (v.semaphore.waiting ++ callers (c ∷ cs))
unfolding serve callers
serve-order v (acquires c) cs h = ground (
  arith,
  append_assoc v.served (c ∷ []) (callers cs),
  append_assoc v.semaphore.waiting (c ∷ []) (callers cs),
)
serve-order v releases cs h = elim (List-cases v.semaphore.waiting) [
  | inl e ↦ ground (arith, e)
  | inr (x, r, e) ↦ ground (arith, e, append_assoc v.served (x ∷ []) (r ++ callers cs))
]

serve-count :
    (v : Service) (c : Call) (cs : List Call)
    → Inv v.semaphore
    → length (serve v c).served + (serve v c).semaphore.available + count_releases cs
      ≤ length v.served + v.semaphore.available + count_releases (c ∷ cs)
unfolding serve count_releases
serve-count v (acquires c) cs h = ground (arith, length-append {0} v.served (c ∷ []))
serve-count v releases cs h = elim (List-cases v.semaphore.waiting) [
  | inl e ↦ ground (arith, e)
  | inr (x, r, e) ↦ ground (arith, e, length-append {0} v.served (x ∷ []))
]

serve_all-facts :
    (v : Service) (cs : List Call)
    → Inv v.semaphore
    → Inv (serve_all v cs).semaphore
      × ((serve_all v cs).served ++ (serve_all v cs).semaphore.waiting
          ≡ v.served ++ (v.semaphore.waiting ++ callers cs))
      × (length (serve_all v cs).served + (serve_all v cs).semaphore.available
          ≤ length v.served + v.semaphore.available + count_releases cs)
unfolding serve_all callers count_releases
serve_all-facts v [] h = (h, rw append-nil, omega arith)
serve_all-facts v (c ∷ cs) h =
    let (i, order, count) = serve_all-facts (serve v c) cs (serve-Inv v c h) in
    (i, order ∙ serve-order v c cs h, le_trans count (serve-count v c cs h))

-- For a new semaphore and any sequence of acquire and release calls: callers are served in the
-- order in which they called and the others wait in that order, no more permits are given out
-- than the capacity and the releases so far, and no permit is free while a caller waits.
pub serve_all-fair :
    (capacity : ℕ) (s : Semaphore) (cs : List Call)
    → new capacity ≡ some s
    → let v = serve_all (start s) cs in
      (v.served ++ v.semaphore.waiting ≡ callers cs)
      × (length v.served ≤ capacity + count_releases cs)
      × ((v.semaphore.waiting ≡ []) ⊎ (v.semaphore.available ≡ 0))
unfolding new start
serve_all-fair capacity s cs e =
    let (i, order, count) = serve_all-facts (start s) cs (new-Inv capacity s e) in
    (ground (arith, order), ground (arith, count), ground (arith, i))
