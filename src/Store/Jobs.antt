-- ===== src/Store/Jobs.antt =====
-- The tables `jobs` and `job_effects` of db/schema.sql, and the shapes of statement that the code
-- sends: `WHERE id = $1 AND guard` touches one row, since `id` is the primary key.
use queue_flow.Base.{
  ℕ, ◌≡◌, refl, Bool, true, false, Option-cases, Option, none, some, List, [], ◌∷◌, ◌++◌, ◌&&◌,
  Text, ◌===◌, ===_iff, if◌then◌else◌, arith, inl, inr,
}
use queue_flow.Types.{JobRow}
use queue_flow.Store.Redis.{contains}

pub record Effect : Type 0 where
  pub job_id : Text
  pub worker_id : Text
  pub ran_at : ℕ

pub record Db : Type 0 where
  pub jobs : List JobRow
  pub effects : List Effect

-- `SELECT … FROM jobs WHERE id = $1`, `rows[0]`
unfoldable pub find : Text → List JobRow → Option JobRow
find i [] = none
find i (r ∷ rs) = if r.id === i then some r else find i rs

-- `UPDATE jobs SET set WHERE id = $1 AND guard`
unfoldable pub update : Text → (JobRow → Bool) → (JobRow → JobRow) → List JobRow → List JobRow
update i guard set [] = []
update i guard set (r ∷ rs) =
    if r.id === i then (if guard r then set r else r) ∷ rs else r ∷ update i guard set rs

-- `RETURNING` of that statement: the row as it is after the update, if one matched.
unfoldable pub returning : Text → (JobRow → Bool) → (JobRow → JobRow) → List JobRow → Option JobRow
returning i guard set rs = elim (find i rs) [
  | none ↦ none
  | some r ↦ if guard r then some (set r) else none
]

abbrev pub when : (JobRow → Bool) → (JobRow → JobRow) → JobRow → JobRow
when guard set r = if guard r then set r else r

-- The row found has the id that was asked for.
pub find-id : (i : Text) (rs : List JobRow) (r : JobRow) → find i rs ≡ some r → r.id ≡ i
unfolding find
find-id i [] r e = cc
find-id i (x ∷ rs) r e = ground (arith, ===_iff x.id i, find-id i rs r)

-- A statement that matches no row changes nothing.
pub update-same :
    (i : Text) (guard : JobRow → Bool) (set : JobRow → JobRow) (rs : List JobRow)
    → returning i guard set rs ≡ none
    → update i guard set rs ≡ rs
unfolding find update returning
update-same i guard set [] e = refl
update-same i guard set (r ∷ rs) e = ground (arith, update-same i guard set rs)

-- A statement that returns a row found it, with its guard, and returns what it wrote.
pub returning-some :
    (i : Text) (guard : JobRow → Bool) (set : JobRow → JobRow) (rs : List JobRow) (r' : JobRow)
    → returning i guard set rs ≡ some r'
    → (r : JobRow) × (find i rs ≡ some r) × (guard r ≡ true) × (r' ≡ set r)
unfolding returning
returning-some i guard set rs r' e = elim (Option-cases (find i rs)) [
  | inl n ↦ absurd (ground (arith, n))
  | inr (r, f) ↦ (r, f, ground (arith, f), ground (arith, f))
]

pub returning_hit :
    (i : Text) (guard : JobRow → Bool) (set : JobRow → JobRow) (rs : List JobRow) (r : JobRow)
    → find i rs ≡ some r
    → guard r ≡ true
    → returning i guard set rs ≡ some (set r)
unfolding returning
returning_hit i guard set rs r f g = ground (arith, f, g)

pub returning_miss :
    (i : Text) (guard : JobRow → Bool) (set : JobRow → JobRow) (rs : List JobRow) (r : JobRow)
    → find i rs ≡ some r
    → guard r ≡ false
    → returning i guard set rs ≡ none
unfolding returning
returning_miss i guard set rs r f g = ground (arith, f, g)

module _ (i : Text) (guard : JobRow → Bool) (set : JobRow → JobRow)
    (keep : (r : JobRow) → (set r).id ≡ r.id) where
  pub find-update_self :
      (rs : List JobRow) (r : JobRow)
      → find i rs ≡ some r
      → guard r ≡ true
      → find i (update i guard set rs) ≡ some (set r)
  unfolding find update
  find-update_self [] r f g = cc
  find-update_self (x ∷ rs) r f g = ground (arith, keep x, find-update_self rs r)

  pub find-update_other :
      (j : Text) (rs : List JobRow) → (i === j) ≡ false → find j (update i guard set rs) ≡ find j rs
  unfolding find update
  find-update_other j [] ne = refl
  find-update_other j (x ∷ rs) ne =
      ground (arith, keep x, ===_iff x.id i, ===_iff x.id j, ===_iff i j, find-update_other j rs)

  -- What the statement returns is what is found afterwards.
  pub find-returning :
      (rs : List JobRow) (r' : JobRow)
      → returning i guard set rs ≡ some r'
      → find i (update i guard set rs) ≡ some r'
  find-returning rs r' e =
      let (r, f, g, s) = returning-some i guard set rs r' e in rw s (find-update_self rs r f g)

-- `UPDATE jobs SET set WHERE id = ANY($1) AND guard`
unfoldable pub update_any :
    List Text → (JobRow → Bool) → (JobRow → JobRow) → List JobRow → List JobRow
unfolding contains
update_any ids guard set [] = []
update_any ids guard set (r ∷ rs) =
    (if contains r.id ids && guard r then set r else r) ∷ update_any ids guard set rs

pub data Insert : Type 0 where
  inserted key_conflict id_conflict : Insert

same_key : Option Text → Option Text → Bool
same_key none k = false
same_key (some j) none = false
same_key (some j) (some k) = j === k

unfoldable pub find_key : Option Text → List JobRow → Option JobRow
unfolding same_key
find_key k [] = none
find_key k (r ∷ rs) = if same_key r.idempotency_key k then some r else find_key k rs

-- `INSERT … ON CONFLICT (idempotency_key) DO NOTHING`: NULL keys never conflict, and an id that is
-- there already is an error.
unfoldable pub insert_reply : JobRow → List JobRow → Insert
unfolding find_key find
insert_reply r rs = elim (find_key r.idempotency_key rs) [
  | some x ↦ key_conflict
  | none ↦ elim (find r.id rs) [ some x ↦ id_conflict | none ↦ inserted ]
]

unfoldable pub insert_when : Insert → JobRow → List JobRow → List JobRow
insert_when inserted r rs = rs ++ (r ∷ [])
insert_when key_conflict r rs = rs
insert_when id_conflict r rs = rs

unfoldable pub insert_job : JobRow → List JobRow → List JobRow
unfolding insert_reply insert_when
insert_job r rs = insert_when (insert_reply r rs) r rs
