-- ===== src/Api/Reads/Workers.antt =====
-- src/api/index.ts: the ids that GET /workers lists.
use queue_flow.Base.{
  ◌≡◌, ◌↔◌, ◌∙◌, refl, ap, Bool, true, false, ◌||◌, Option, none, some, List, [], ◌∷◌, ◌++◌, Text,
  ◌===◌, ===_iff, arith,
}
use queue_flow.Keys.{
  processing, alive, is_empty, is_one_line, worker_id_from_alive_key, worker_id_from_processing_key,
}
use queue_flow.Keys.Parse.{worker_id-processing_iff, worker_id-alive_iff}
use queue_flow.Store.Redis.{contains}
use queue_flow.Api.Reads.{add_id, add_ids, insert_text, sort_texts, worker_ids}

contains-append :
    (x : Text) (xs ys : List Text) → contains x (xs ++ ys) ≡ (contains x xs || contains x ys)
unfolding contains
contains-append x [] ys = refl
contains-append x (y ∷ xs) ys = ground (arith, contains-append x xs ys)

contains-insert_text :
    (x y : Text) (ys : List Text) → contains x (insert_text y ys) ≡ ((x === y) || contains x ys)
unfolding contains insert_text
contains-insert_text x y [] = refl
contains-insert_text x y (z ∷ ys) = ground (arith, contains-insert_text x y ys)

contains-sort_texts : (x : Text) (xs : List Text) → contains x (sort_texts xs) ≡ contains x xs
unfolding contains sort_texts
contains-sort_texts x [] = refl
contains-sort_texts x (y ∷ ys) =
    ground (arith, contains-insert_text x y (sort_texts ys), contains-sort_texts x ys)

abbrev is_this : Option Text → Text → Bool
is_this none id = false
is_this (some j) id = id === j

contains-add_id :
    (id : Text) (o : Option Text) (ids : List Text)
    → contains id (add_id o ids) ≡ (contains id ids || is_this o id)
unfolding contains
contains-add_id id none ids = ground arith
contains-add_id id (some j) ids = ground (arith, contains-append id ids (j ∷ []), ===_iff id j)

module _ (parse : Text → Option Text) (id key : Text)
    (reads : (k : Text) → (parse k ≡ some id) ↔ (k ≡ key)) where
  this_key_of : (k : Text) (o : Option Text) → parse k ≡ o → is_this o id ≡ (key === k)
  this_key_of k none e = ground (arith, reads k, ===_iff key k)
  this_key_of k (some j) e = ground (arith, reads k, ===_iff key k, ===_iff id j)

  this_key : (k : Text) → is_this (parse k) id ≡ (key === k)
  this_key k = this_key_of k (parse k) refl

  contains-add_ids :
      (keys ids : List Text)
      → contains id (add_ids parse keys ids) ≡ (contains id ids || contains key keys)
  unfolding contains add_ids
  contains-add_ids [] ids = ground arith
  contains-add_ids (k ∷ keys) ids = ground (
    arith,
    contains-add_ids keys (add_id (parse k) ids),
    contains-add_id id (parse k) ids,
    this_key k,
  )

reads_processing :
    (id : Text)
    → is_empty id ≡ false
    → (k : Text) → (worker_id_from_processing_key k ≡ some id) ↔ (k ≡ processing id)
reads_processing id named k =
    let h = worker_id-processing_iff k id in (λ e. (h.0 e).0, λ e. h.1 (e, named))

reads_alive :
    (id : Text)
    → is_empty id ≡ false
    → is_one_line id ≡ true
    → (k : Text) → (worker_id_from_alive_key k ≡ some id) ↔ (k ≡ alive id)
reads_alive id named line k =
    let h = worker_id-alive_iff k id in (λ e. (h.0 e).0, λ e. h.1 (e, named, line))

-- For a worker id that is one non-empty line, and whatever keys SCAN found: GET /workers lists
-- the worker exactly when its heartbeat or its processing list is among the keys.
pub worker_ids-contains :
    (id : Text) (alive_keys processing_keys : List Text)
    → is_empty id ≡ false
    → is_one_line id ≡ true
    → contains id (worker_ids alive_keys processing_keys)
      ≡ (contains (alive id) alive_keys || contains (processing id) processing_keys)
unfolding worker_ids contains
worker_ids-contains id alive_keys processing_keys named line =
    let found = add_ids worker_id_from_alive_key alive_keys [] in
    contains-sort_texts id (add_ids worker_id_from_processing_key processing_keys found)
    ∙ contains-add_ids worker_id_from_processing_key id (processing id) (reads_processing id named)
        processing_keys found
    ∙ ap (λ b. b || contains (processing id) processing_keys)
        (contains-add_ids worker_id_from_alive_key id (alive id) (reads_alive id named line)
          alive_keys [])
