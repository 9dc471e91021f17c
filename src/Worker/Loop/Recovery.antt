-- ===== src/Worker/Loop/Recovery.antt =====
-- src/worker/index.ts: what recoverOwnProcessing does, executed without interference.
use mathlib.Core.List.{append_assoc, append-nil, reverse, reverse_aux}
use queue_flow.Base.{
  map, ◌&&◌, true, Bool-cases, List-cases, Bool, none, if◌then◌else◌, ℕ, zero, suc, ◌+◌, ◌<◌, ◌≡◌,
  ◌∙◌, refl, sym, ap, subst, ◌*◌, inl, inr, false, Option, some, List, [], ◌∷◌, ◌++◌, Text, ◌===◌,
  ===_iff, ===_refl, length, last?, drop_last, last?-none, last?-split, length-drop_last,
  Option-cases, arith,
}
use queue_flow.Keys.{pending, processing, alive}
use queue_flow.Keys.Parse.{processing-ne-pending}
use queue_flow.Proc.{Proc, ◌>>=◌, result, final}
use queue_flow.Store.Jobs.{update_any}
use queue_flow.Types.{JobRow, queued, running, is_uuid}
use queue_flow.Store.Redis.{Redis, contains}
use queue_flow.Store.World.{World, key_exists}
use queue_flow.Worker.{WorkerConfig}
use queue_flow.Worker.Loop.{
  wait_if, move_all, restore, recover_if, recover_own_processing, is_running, set_stranded,
  keep_uuids,
}

reverse-last : (xs : List Text) (x : Text) → reverse (xs ++ (x ∷ [])) ≡ x ∷ reverse xs
reverse-last xs x = onto xs []
  where
    onto : (ys acc : List Text) → reverse_aux (ys ++ (x ∷ [])) acc ≡ x ∷ reverse_aux ys acc
    onto [] acc = refl
    onto (y ∷ ys) acc = onto ys (y ∷ acc)

module _ (R : Redis) (key : Text) (apart : (key === pending) ≡ false) where
  apart_sym : (pending === key) ≡ false
  apart_sym = ground (arith, ===_iff key pending, ===_iff pending key)

  abbrev Moved : World R → World R → List Text → Type 0
  Moved s t xs =
      (R.lrange t.lists key ≡ [])
      × (R.lrange t.lists pending ≡ R.lrange s.lists pending ++ xs)
      × (t.db ≡ s.db)
      × (t.delayed ≡ s.delayed)
      × (t.clock ≡ s.clock)

  -- The LMOVE loop empties the list onto the tail of the pending one, the last entry first.
  move_all-moves :
      (fuel moved : ℕ) (s : World R)
      → length (R.lrange s.lists key) < fuel
      → (result (move_all R fuel key moved) s ≡ some (moved + length (R.lrange s.lists key)))
        × Moved s (final (move_all R fuel key moved) s) (reverse (R.lrange s.lists key))
  unfolding move_all
  move_all-moves zero moved s h = absurd (omega arith)
  move_all-moves (suc fuel) moved s h = elim (Option-cases (last? (R.lrange s.lists key))) [
    | inl e ↦
        let empty : R.lrange s.lists key ≡ [] = last?-none (R.lrange s.lists key) e in
        rw (R.lindex_last-lrange s.lists key, e, empty)
          (
            ap some (omega arith),
            (
              rw (R.lrange-lmove_right s.lists key pending key apart, e) empty,
              rw (R.lrange-lmove_right s.lists key pending pending apart, e)
                  (sym (append-nil (R.lrange s.lists pending))),
              refl,
              refl,
              refl,
            ),
          )
    | inr (id, e) ↦
        let s' : World R = record s { lists = R.lmove_right s.lists key pending } in
        let rest : R.lrange s'.lists key ≡ drop_last (R.lrange s.lists key) =
          rw (R.lrange-lmove_right s.lists key pending key apart, e, apart_sym, ===_refl key)
            refl in
        let grown : R.lrange s'.lists pending ≡ R.lrange s.lists pending ++ (id ∷ []) =
          rw (R.lrange-lmove_right s.lists key pending pending apart, e, ===_refl pending) refl in
        let shorter = length-drop_last (R.lrange s.lists key) id e in
        let (same, moves) = move_all-moves fuel (moved + 1) s' (rw rest (omega (arith, shorter))) in
        let (gone, onto, db, delayed, clock) = moves in
        let turned : reverse (R.lrange s.lists key)
            ≡ id ∷ reverse (drop_last (R.lrange s.lists key)) =
          ap reverse (last?-split (R.lrange s.lists key) id e)
          ∙ reverse-last (drop_last (R.lrange s.lists key)) id in
        rw (R.lindex_last-lrange s.lists key, e)
          (
            same ∙ ap some (omega (arith, shorter, ap length rest)),
            (
              gone,
              onto
                  ∙ rw (grown, rest, turned)
                      (append_assoc (R.lrange s.lists pending) (id ∷ [])
                        (reverse (drop_last (R.lrange s.lists key)))),
              db,
              delayed,
              clock,
            ),
          )
  ]

-- A row whose id is a uuid among the entries and which was running waits again, without a start.
abbrev pub waits_again : List Text → JobRow → JobRow
waits_again entries r =
    if contains r.id entries && is_uuid r.id
    then elim r.status [ running ↦ record r { status = queued; started_at = none } | _ ↦ r ]
    else r

contains-keep_uuids :
    (x : Text) (entries : List Text)
    → contains x (keep_uuids entries) ≡ contains x entries && is_uuid x
unfolding contains keep_uuids
contains-keep_uuids x [] = refl
contains-keep_uuids x (y ∷ entries) = elim (Bool-cases (x === y)) [
  | inl e ↦
      let same : x ≡ y = (===_iff x y).0 e in
      let ih = contains-keep_uuids x entries in ground (arith, e, ih, ap is_uuid same)
  | inr e ↦ let ih = contains-keep_uuids x entries in ground (arith, e, ih)
]

-- The statement of the recovery, row by row.
update_any-waits_again :
    (entries : List Text) (jobs : List JobRow)
    → update_any (keep_uuids entries) is_running set_stranded jobs ≡ map (waits_again entries) jobs
unfolding update_any is_running set_stranded
update_any-waits_again entries [] = refl
update_any-waits_again entries (r ∷ rs) =
    rw (update_any-waits_again entries rs, contains-keep_uuids r.id entries)
      (ap (λ x. x ∷ map (waits_again entries) rs) (row (contains r.id entries) (is_uuid r.id)))
  where
    row :
        (b c : Bool)
        → (if (b && c) && is_running r then set_stranded r else r) ≡ (
            if b && c
            then elim r.status [ running ↦ record r { status = queued; started_at = none } | _ ↦ r ]
            else r)
    row b c = ground arith

keep_uuids-some :
    (x : Text) (entries : List Text)
    → contains x entries ≡ true
    → is_uuid x ≡ true
    → (id : Text) × (ids : List Text) × (keep_uuids entries ≡ id ∷ ids)
unfolding contains
keep_uuids-some x entries c u = elim (List-cases (keep_uuids entries)) [
  | inr (id, ids, e) ↦ (id, ids, e)
  | inl e ↦ absurd (
      let h : contains x [] ≡ true =
        ap (contains x) (sym e) ∙ contains-keep_uuids x entries ∙ ground (arith, c, u) in
      ground (arith, h))
]

module _ (R : Redis) (cfg : WorkerConfig) where
  -- What the recovery leaves behind, where some entry of the worker's list is a uuid.
  abbrev pub Recovered : World R → World R → Type 0
  Recovered s t =
      let entries = R.lrange s.lists (processing cfg.worker_id) in
      (R.lrange t.lists (processing cfg.worker_id) ≡ [])
      × (R.lrange t.lists pending ≡ R.lrange s.lists pending ++ reverse entries)
      × (t.db.jobs ≡ map (waits_again entries) s.db.jobs)
      × (t.db.effects ≡ s.db.effects)
      × (t.delayed ≡ s.delayed)
      × (t.clock ≡ s.clock)

  abbrev Restores : World R → Proc (World R) (Option ℕ) → Type 0
  Restores s p =
      (result p s ≡ some (length (R.lrange s.lists (processing cfg.worker_id))))
      × Recovered s (final p s)

  restore-Recovered :
      (fuel : ℕ) (id : Text) (ids : List Text) (s : World R)
      → keep_uuids (R.lrange s.lists (processing cfg.worker_id)) ≡ id ∷ ids
      → length (R.lrange s.lists (processing cfg.worker_id)) < fuel
      → Restores s (restore R fuel (processing cfg.worker_id) (id ∷ ids))
  unfolding restore is_running set_stranded
  restore-Recovered fuel id ids s e h =
      let key = processing cfg.worker_id in
      let s' : World R = record s {
        db = record s.db { jobs = update_any (id ∷ ids) is_running set_stranded s.db.jobs };
      } in
      let (same, moves) = move_all-moves R key (processing-ne-pending cfg.worker_id) fuel 0 s' h in
      let (gone, onto, db, delayed, clock) = moves in
      let entries = R.lrange s.lists key in
      let rows : update_any (id ∷ ids) is_running set_stranded s.db.jobs
          ≡ map (waits_again entries) s.db.jobs =
        rw (sym e) (update_any-waits_again entries s.db.jobs) in
      (
        same ∙ ap some (omega arith),
        (gone, onto, ap (λ d. d.jobs) db ∙ rows, ap (λ d. d.effects) db, delayed, clock),
      )

  pub recover_own_processing-restores :
      (fuel ttl_s : ℕ) (uuid : Text) (s : World R)
      → R.exists s.beats s.clock (alive cfg.worker_id) ≡ false
      → contains uuid (R.lrange s.lists (processing cfg.worker_id)) ≡ true
      → is_uuid uuid ≡ true
      → length (R.lrange s.lists (processing cfg.worker_id)) < fuel
      → (result (recover_own_processing R fuel ttl_s cfg) s
          ≡ some (length (R.lrange s.lists (processing cfg.worker_id))))
        × Recovered s (final (recover_own_processing R fuel ttl_s cfg) s)
  unfolding recover_own_processing recover_if wait_if
  recover_own_processing-restores fuel ttl_s uuid s gone among valid h =
      let key = processing cfg.worker_id in
      let own = alive cfg.worker_id in
      let (id, ids, e) = keep_uuids-some uuid (R.lrange s.lists key) among valid in
      let deadline = s.clock + (ttl_s * 1000 + 1000) in
      let restored =
        subst (λ l. Restores s (restore R fuel key l)) (sym e)
          (restore-Recovered fuel id ids s e h) in
      let recovered = subst (λ b. Restores s (recover_if R fuel cfg b)) (sym gone) restored in
      subst
        (λ b.
          Restores s
            (wait_if R fuel deadline own b >>= λ _. key_exists R own >>= recover_if R fuel cfg))
        (sym gone) recovered
