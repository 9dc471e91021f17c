-- ===== src/Keys/Parse.antt =====
-- src/shared/keys.ts: keys against the worker ids read from them.
use queue_flow.Base.{
  ℕ, length, length-append, ◌∙◌, ◌≡◌, refl, true, false, Option, none, some, [], ◌∷◌, ◌++◌, Text,
  arith, ap, ===_iff, ===_refl, ◌===◌, ◌↔◌, Bool-cases, Option-cases, inl, inr,
}
use queue_flow.Keys.{
  processing, processing_prefix, pending, alive, alive_prefix, alive_suffix, strip_prefix,
  strip_suffix, strip_suffix_of, is_empty, is_one_line, keep_nonempty, keep_one_line,
  worker_id_from_processing_key, worker_id_from_alive_key,
}

strip_prefix-append : (p t : Text) → strip_prefix p (p ++ t) ≡ some t
unfolding strip_prefix
strip_prefix-append [] t = refl
strip_prefix-append (c ∷ p) t = ground (arith, strip_prefix-append p t)

strip_prefix-eq_some : (p k t : Text) → strip_prefix p k ≡ some t → k ≡ p ++ t
unfolding strip_prefix
strip_prefix-eq_some [] k t e = ground arith
strip_prefix-eq_some (c ∷ p) [] t e = cc
strip_prefix-eq_some (c ∷ p) (d ∷ k) t e = ground (arith, strip_prefix-eq_some p k t)

longer_ne : (p t : Text) (c : ℕ) → (p === c ∷ (t ++ p)) ≡ false
longer_ne p t c = elim (Bool-cases (p === c ∷ (t ++ p))) [
  | inl e ↦
      absurd (omega (arith, ap length ((===_iff p (c ∷ (t ++ p))).0 e), length-append {0} t p))
  | inr e ↦ e
]

strip_suffix-append : (p t : Text) → strip_suffix p (t ++ p) ≡ some t
unfolding strip_suffix
strip_suffix-append [] [] = ground (arith, ===_refl [])
strip_suffix-append (c ∷ p) [] = ground (arith, ===_refl (c ∷ p))
strip_suffix-append p (c ∷ t) = rw (longer_ne p t c, strip_suffix-append p t)

strip_suffix-eq_some : (p k t : Text) → strip_suffix p k ≡ some t → k ≡ t ++ p
unfolding strip_suffix
strip_suffix-eq_some p [] t e = ground (arith, ===_iff p [])
strip_suffix-eq_some p (c ∷ k) t e = elim (Option-cases (strip_suffix p k)) [
  | inl none_left ↦ ground (arith, ===_iff p (c ∷ k))
  | inr (r, f) ↦ ground (arith, strip_suffix-eq_some p k r f, ===_iff p (c ∷ k))
]

keep_nonempty_iff :
    (o : Option Text) (w : Text)
    → (keep_nonempty o ≡ some w) ↔ ((o ≡ some w) × (is_empty w ≡ false))
unfolding keep_nonempty
keep_nonempty_iff none w = ground arith
keep_nonempty_iff (some id) w = ground arith

keep_one_line_iff :
    (o : Option Text) (w : Text)
    → (keep_one_line o ≡ some w) ↔ ((o ≡ some w) × (is_empty w ≡ false) × (is_one_line w ≡ true))
unfolding keep_one_line
keep_one_line_iff none w = ground arith
keep_one_line_iff (some id) w = ground arith

alive_of_parts :
    (key w : Text) (o : Option Text)
    → strip_prefix alive_prefix key ≡ o
    → strip_suffix_of alive_suffix o ≡ some w
    → key ≡ alive w
unfolding strip_suffix_of
alive_of_parts key w none f e = cc
alive_of_parts key w (some r) f e =
    strip_prefix-eq_some alive_prefix key r f
    ∙ ap (λ t. alive_prefix ++ t) (strip_suffix-eq_some alive_suffix r w e)

-- A worker id is read back from a key exactly when the key is that worker's processing list and
-- the id is not empty.
pub worker_id-processing_iff :
    (key w : Text)
    → (worker_id_from_processing_key key ≡ some w) ↔ ((key ≡ processing w) × (is_empty w ≡ false))
unfolding worker_id_from_processing_key
worker_id-processing_iff key w =
    let h = keep_nonempty_iff (strip_prefix processing_prefix key) w in
    (
      λ e. (strip_prefix-eq_some processing_prefix key w (h.0 e).0, (h.0 e).1),
      λ k. h.1 (rw (k.0) (strip_prefix-append processing_prefix w), k.1),
    )

inner : (w : Text) → strip_suffix_of alive_suffix (some (w ++ alive_suffix)) ≡ some w
unfolding strip_suffix_of
inner w = strip_suffix-append alive_suffix w

worker_id_from_alive_key_lines :
    (key : Text)
    → worker_id_from_alive_key key
      ≡ keep_one_line (strip_suffix_of alive_suffix (strip_prefix alive_prefix key))
unfolding worker_id_from_alive_key
worker_id_from_alive_key_lines key = refl

-- A worker id is read back from a key exactly when the key is that worker's heartbeat and the id
-- is one non-empty line.
pub worker_id-alive_iff :
    (key w : Text)
    → (worker_id_from_alive_key key ≡ some w)
      ↔ ((key ≡ alive w) × (is_empty w ≡ false) × (is_one_line w ≡ true))
worker_id-alive_iff key w =
    rw (worker_id_from_alive_key_lines key)
      let h = keep_one_line_iff (strip_suffix_of alive_suffix (strip_prefix alive_prefix key)) w in
        (
          λ e. (
            alive_of_parts key w (strip_prefix alive_prefix key) refl (h.0 e).0,
            (h.0 e).1,
            (h.0 e).2,
          ),
          λ k. h.1 (
            rw k.0 (rw (strip_prefix-append alive_prefix (w ++ alive_suffix)) (inner w)),
            k.1,
            k.2,
          ),
        )

pub pending-ne-processing : (w : Text) → (pending === processing w) ≡ false
unfolding ◌===◌
pending-ne-processing w = refl

pub processing-ne-pending : (w : Text) → (processing w === pending) ≡ false
unfolding ◌===◌
processing-ne-pending w = refl

pub alive-ne-pending : (w : Text) → (alive w === pending) ≡ false
unfolding ◌===◌
alive-ne-pending w = refl
