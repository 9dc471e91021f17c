-- ===== src/Store/Views.antt =====
-- What the commands do to lists of ids and to the ids that have a row.
use queue_flow.Base.{
  ◌≡◌, refl, subst, Bool, true, false, Option, none, some, List, [], ◌∷◌, ◌++◌, Text, ◌===◌,
  ===_iff, All, All-append, All-map, arith, last?, drop_last, if◌then◌else◌,
}
use queue_flow.Types.{JobRow}
use queue_flow.Store.Jobs.{
  Insert, find, update, update_any, insert_job, insert_when, insert_reply, inserted, key_conflict,
  id_conflict,
}
use queue_flow.Store.Redis.{contains, remove_first, remove_last, move_left, move_right}
use queue_flow.Store.World.{is_some}

abbrev pub HasRow : List JobRow → Text → Type 0
HasRow jobs id = is_some (find id jobs) ≡ true

pub row-update :
    (id : Text) (guard : JobRow → Bool) (set : JobRow → JobRow) (jobs : List JobRow) (j : Text)
    → ((r : JobRow) → (set r).id ≡ r.id)
    → is_some (find j (update id guard set jobs)) ≡ is_some (find j jobs)
unfolding find update
row-update id guard set [] j keep = refl
row-update id guard set (x ∷ jobs) j keep =
    ground (arith, keep x, row-update id guard set jobs j keep)

pub row-update_any :
    (ids : List Text) (guard : JobRow → Bool) (set : JobRow → JobRow) (jobs : List JobRow)
    (j : Text)
    → ((r : JobRow) → (set r).id ≡ r.id)
    → is_some (find j (update_any ids guard set jobs)) ≡ is_some (find j jobs)
unfolding find update_any
row-update_any ids guard set [] j keep = refl
row-update_any ids guard set (x ∷ jobs) j keep =
    ground (arith, keep x, row-update_any ids guard set jobs j keep)

pub row-append :
    (row : JobRow) (jobs : List JobRow) (j : Text) → HasRow jobs j → HasRow (jobs ++ (row ∷ [])) j
unfolding find
row-append row [] j h = cc
row-append row (x ∷ jobs) j h = ground (arith, row-append row jobs j)

pub row-append_self : (row : JobRow) (jobs : List JobRow) → HasRow (jobs ++ (row ∷ [])) row.id
unfolding find
row-append_self row [] = ground (arith, ===_iff row.id row.id)
row-append_self row (x ∷ jobs) = ground (arith, row-append_self row jobs)

pub row-insert :
    (row : JobRow) (jobs : List JobRow) (j : Text) → HasRow jobs j → HasRow (insert_job row jobs) j
unfolding insert_job
row-insert row jobs j h = by_reply (insert_reply row jobs)
  where
    by_reply : (reply : Insert) → HasRow (insert_when reply row jobs) j
    by_reply inserted = row-append row jobs j h
    by_reply key_conflict = h
    by_reply id_conflict = h

pub All-drop_last : (P : Text → Type 0) (xs : List Text) → All P xs → All P (drop_last xs)
All-drop_last P [] h = tt
All-drop_last P (x ∷ []) h = tt
All-drop_last P (x ∷ y ∷ ys) h = (h.0, All-drop_last P (y ∷ ys) h.1)

pub All-last? : (P : Text → Type 0) (xs : List Text) (x : Text) → last? xs ≡ some x → All P xs → P x
All-last? P [] x e h = cc
All-last? P (y ∷ []) x e h = subst P (cc) h.0
All-last? P (y ∷ z ∷ zs) x e h = All-last? P (z ∷ zs) x e h.1

pub All-if :
    (P : Text → Type 0) (b : Bool) (xs ys : List Text)
    → All P xs
    → All P ys
    → All P (if b then xs else ys)
All-if P true xs ys hx hy = hx
All-if P false xs ys hx hy = hy

pub All-remove_first :
    (P : Text → Type 0) (x : Text) (xs : List Text) → All P xs → All P (remove_first x xs)
unfolding remove_first
All-remove_first P x [] h = tt
All-remove_first P x (y ∷ ys) h =
    All-if P (x === y) ys (y ∷ remove_first x ys) h.1 (h.0, All-remove_first P x ys h.1)

pub All-remove_last :
    (P : Text → Type 0) (x : Text) (xs : List Text) → All P xs → All P (remove_last x xs)
unfolding remove_last
All-remove_last P x [] h = tt
All-remove_last P x (y ∷ ys) h =
    All-if P (contains x ys) (y ∷ remove_last x ys) (if x === y then ys else y ∷ ys)
      (h.0, All-remove_last P x ys h.1) (All-if P (x === y) ys (y ∷ ys) h.1 h)

pub All-move_left :
    (P : Text → Type 0) (src dst : Text) (view : Text → List Text) (j : Text)
    → ((k : Text) → All P (view k))
    → All P (move_left (last? (view src)) src dst view j)
All-move_left P src dst view j h = by_last (last? (view src)) refl
  where
    by_last : (o : Option Text) → last? (view src) ≡ o → All P (move_left o src dst view j)
    by_last none e = h j
    by_last (some x) e =
        All-if P (dst === j) (x ∷ view dst) (if src === j then drop_last (view src) else view j)
          (All-last? P (view src) x e (h src), h dst)
          (All-if P (src === j) (drop_last (view src)) (view j) (All-drop_last P (view src) (h src))
            (h j))

pub All-move_right :
    (P : Text → Type 0) (src dst : Text) (view : Text → List Text) (j : Text)
    → ((k : Text) → All P (view k))
    → All P (move_right (last? (view src)) src dst view j)
All-move_right P src dst view j h = by_last (last? (view src)) refl
  where
    by_last : (o : Option Text) → last? (view src) ≡ o → All P (move_right o src dst view j)
    by_last none e = h j
    by_last (some x) e =
        All-if P (dst === j) (view dst ++ (x ∷ []))
          (if src === j then drop_last (view src) else view j)
          (All-append P (view dst) (x ∷ []) (h dst) (All-last? P (view src) x e (h src), tt))
          (All-if P (src === j) (drop_last (view src)) (view j) (All-drop_last P (view src) (h src))
            (h j))

-- Every row of the table is found under its id.
pub rows-HasRow : (jobs : List JobRow) → All (λ r. HasRow jobs r.id) jobs
unfolding find
rows-HasRow [] = tt
rows-HasRow (x ∷ jobs) = (
  ground (arith, ===_iff x.id x.id),
  All-map (λ r. HasRow jobs r.id) (λ r. HasRow (x ∷ jobs) r.id) jobs (λ r h. ground (arith, h))
      (rows-HasRow jobs),
)
