-- ===== src/Scheduler/Reaper/Orphans.antt =====
-- src/scheduler/reaper.ts: the candidates of sweepOrphans, and which of them are missing on the queues.
use queue_flow.Base.{
  ℕ, zero, suc, ◌+◌, ◌≡◌, ◌∙◌, refl, ap, inl, inr, Bool, true, ◌&&◌, List, [], ◌∷◌, ◌++◌, Text,
  ◌===◌, ===_refl, ===_iff, ◌||◌, ◌⊎◌, All-map, if◌then◌else◌, length, Bool-cases, arith, All, take,
  ltb, ◌*◌,
}
use queue_flow.Store.Redis.{contains}
use queue_flow.Types.{JobRow}
use queue_flow.Store.Views.{HasRow, rows-HasRow}
use queue_flow.Scheduler.Reaper.{batch, orphan_rows, insert_by_age, ids, is_queued}

-- The ids of `todo` that are not in `held`, in their order.
unfoldable pub missing : List Text → List Text → List Text
missing held [] = []
missing held (id ∷ todo) =
    let rest = missing held todo in if contains id held then rest else id ∷ rest

abbrev pub is_old : ℕ → ℕ → JobRow → Bool
is_old age now r = is_queued r.status && ltb (r.created_at + age * 1000) now

contains-insert_by_age :
    (x : Text) (r : JobRow) (rs : List JobRow)
    → contains x (ids (insert_by_age r rs)) ≡ (x === r.id) || contains x (ids rs)
unfolding contains ids insert_by_age
contains-insert_by_age x r [] = refl
contains-insert_by_age x r (s ∷ rs) = ground (arith, contains-insert_by_age x r rs)

abbrev pub Among : ℕ → ℕ → List JobRow → JobRow → Type 0
Among age now jobs r =
    is_old age now r ≡ true → contains r.id (ids (orphan_rows age now jobs)) ≡ true

contains-more_orphans :
    (age now : ℕ) (x : Text) (r : JobRow) (rs : List JobRow)
    → contains x (ids (orphan_rows age now (r ∷ rs)))
      ≡ (is_old age now r && (x === r.id)) || contains x (ids (orphan_rows age now rs))
unfolding orphan_rows
contains-more_orphans age now x r rs =
    ground (arith, contains-insert_by_age x r (orphan_rows age now rs))

pub contains-orphan_rows : (age now : ℕ) (jobs : List JobRow) → All (Among age now jobs) jobs
contains-orphan_rows age now [] = tt
contains-orphan_rows age now (r ∷ rs) = (
  λ h. contains-more_orphans age now r.id r rs ∙ ground (arith, h, ===_refl r.id),
  All-map (Among age now rs) (Among age now (r ∷ rs)) rs
      (λ s h o. contains-more_orphans age now s.id r rs ∙ ground (arith, h o))
      (contains-orphan_rows age now rs),
)

pub contains-take :
    (n : ℕ) (x : Text) (rs : List JobRow)
    → contains x (ids rs) ≡ true
    → (contains x (ids (take n rs)) ≡ true) ⊎ (length (ids (take n rs)) ≡ n)
unfolding contains ids
contains-take zero x rs h = inr refl
contains-take (suc n) x [] h = absurd (ground (arith, h))
contains-take (suc n) x (r ∷ rs) h = elim (Bool-cases (x === r.id)) [
  | inl e ↦ inl (ground (arith, e))
  | inr e ↦ elim (contains-take n x rs (ground (arith, h, e))) [
    | inl c ↦ inl (ground (arith, c))
    | inr l ↦ inr (ap suc l)
  ]
]

pub contains-missing :
    (x : Text) (held todo : List Text)
    → contains x todo ≡ true
    → (contains x held ≡ true) ⊎ (contains x (missing held todo) ≡ true)
unfolding contains missing
contains-missing x held [] h = absurd (ground (arith, h))
contains-missing x held (y ∷ todo) h = elim (Bool-cases (x === y)) [
  | inr e ↦ elim (contains-missing x held todo (ground (arith, h, e))) [
    | inl c ↦ inl c
    | inr c ↦ inr (ground (arith, c))
  ]
  | inl e ↦ elim (Bool-cases (contains y held)) [
    | inl c ↦ inl (rw ((===_iff x y).0 e) c)
    | inr c ↦ inr (rw c (ground (arith, e)))
  ]
]

pub All-middle :
    (P : JobRow → Type 0) (before : List JobRow) (r : JobRow) (after : List JobRow)
    → All P (before ++ (r ∷ after))
    → P r
All-middle P [] r after h = h.0
All-middle P (x ∷ before) r after h = All-middle P before r after h.1

pub contains-append :
    (x : Text) (xs ys : List Text) → contains x ys ≡ true → contains x (xs ++ ys) ≡ true
unfolding contains
contains-append x [] ys h = h
contains-append x (y ∷ xs) ys h = ground (arith, contains-append x xs ys h)

module _ (P : JobRow → Type 0) where
  All-insert_by_age : (r : JobRow) (xs : List JobRow) → P r → All P xs → All P (insert_by_age r xs)
  unfolding insert_by_age
  All-insert_by_age r [] h hs = (h, tt)
  All-insert_by_age r (x ∷ xs) h hs = ground (arith, All-insert_by_age r xs h hs.1)

  All-orphan_rows : (age time : ℕ) (rs : List JobRow) → All P rs → All P (orphan_rows age time rs)
  unfolding orphan_rows
  All-orphan_rows age time [] h = tt
  All-orphan_rows age time (r ∷ rs) h =
      let rest = All-orphan_rows age time rs h.1 in
      ground (arith, rest, All-insert_by_age r (orphan_rows age time rs) h.0 rest)

  All-take : (n : ℕ) (rs : List JobRow) → All P rs → All P (take n rs)
  All-take zero rs h = tt
  All-take (suc n) [] h = tt
  All-take (suc n) (r ∷ rs) h = (h.0, All-take n rs h.1)

All-ids : (P : Text → Type 0) (rs : List JobRow) → All (λ r. P r.id) rs → All P (ids rs)
unfolding ids
All-ids P [] h = tt
All-ids P (r ∷ rs) h = (h.0, All-ids P rs h.1)

-- The candidates are ids of rows.
pub orphans-HasRow :
    (age time : ℕ) (jobs : List JobRow)
    → All (HasRow jobs) (ids (take batch (orphan_rows age time jobs)))
orphans-HasRow age time jobs =
    let P = λ (r : JobRow). HasRow jobs r.id in
    All-ids (HasRow jobs) _ (
      All-take P batch (orphan_rows age time jobs)
        (All-orphan_rows P age time jobs (rows-HasRow jobs)))
