-- ===== src/Store/Known.antt =====
-- The condition that ids on queues have rows, and each command of the code against it.
use queue_flow.Base.{
  ℕ, ◌≡◌, ◌⊎◌, ◌∙◌, refl, inl, inr, subst, Bool, false, none, List, [], ◌∷◌, ◌++◌, Text, ◌===◌,
  ===_iff, All, All-append, All-map, Bool-cases,
}
use queue_flow.Proc.{Proc, ◌>>=◌, Safe, Safe-bind, Safe-lasting}
use queue_flow.Types.{JobRow}
use queue_flow.Store.Jobs.{update}
use queue_flow.Store.Redis.{Redis, remove_first, remove_last}
use queue_flow.Store.World.{World}
use queue_flow.Store.Views.{
  HasRow, row-update, All-if, All-remove_first, All-remove_last, All-move_left, All-move_right,
}

module _ (R : Redis) where
  -- Every id on a list or in the sorted set is the id of a row.
  pub record Known (w : World R) : Type 0 where
    pub lists : (key : Text) → All (HasRow w.db.jobs) (R.lrange w.lists key)
    pub delayed : (id : Text) → (R.zscore w.delayed id ≡ none) ⊎ HasRow w.db.jobs id

  -- Once a row is there it stays.
  abbrev pub Grows : World R → World R → Type 0
  Grows w w' = (j : Text) → HasRow w.db.jobs j → HasRow w'.db.jobs j

  pub Grows-refl : (w : World R) → Grows w w
  Grows-refl w j h = h

  pub Grows-trans : (u v w : World R) → Grows u v → Grows v w → Grows u w
  Grows-trans u v w g h j r = h j (g j r)

  -- A change of the database alone that keeps the rows.
  pub jobs-Known :
      (w : World R) (jobs : List JobRow)
      → ((j : Text) → HasRow w.db.jobs j → HasRow jobs j)
      → Known w
      → Known (record w { db = record w.db { jobs = jobs } })
  jobs-Known w jobs g i = record {
    lists = λ key. All-map (HasRow w.db.jobs) (HasRow jobs) (R.lrange w.lists key) g (i.lists key);
    delayed = λ id. elim (i.delayed id) [ inl e ↦ inl e | inr h ↦ inr (g id h) ];
  }

  pub update-Grows :
      (w : World R) (id : Text) (guard : JobRow → Bool) (set : JobRow → JobRow)
      → ((r : JobRow) → (set r).id ≡ r.id)
      → Grows w (record w { db = record w.db { jobs = update id guard set w.db.jobs } })
  update-Grows w id guard set keep j h = row-update id guard set w.db.jobs j keep ∙ h

  -- A change of the lists alone.
  pub lists-Known :
      (w : World R) (lists : R.Lists)
      → ((key : Text) → All (HasRow w.db.jobs) (R.lrange lists key))
      → Known w
      → Known (record w { lists = lists })
  lists-Known w lists h i = record { lists = h; delayed = i.delayed }

  pub lpush-Known :
      (w : World R) (k x : Text)
      → HasRow w.db.jobs x
      → Known w
      → Known (record w { lists = R.lpush w.lists k x })
  lpush-Known w k x h i =
      lists-Known w _
        (λ j. rw (R.lrange-lpush w.lists k x j) (
          All-if (HasRow w.db.jobs) (k === j) (x ∷ R.lrange w.lists k) (R.lrange w.lists j)
            (h, i.lists k) (i.lists j)))
        i

  pub rpush-Known :
      (w : World R) (k x : Text)
      → HasRow w.db.jobs x
      → Known w
      → Known (record w { lists = R.rpush w.lists k x })
  rpush-Known w k x h i =
      lists-Known w _
        (λ j. rw (R.lrange-rpush w.lists k x j) (
          All-if (HasRow w.db.jobs) (k === j) (R.lrange w.lists k ++ (x ∷ [])) (R.lrange w.lists j)
            (All-append (HasRow w.db.jobs) (R.lrange w.lists k) (x ∷ []) (i.lists k) (h, tt))
            (i.lists j)))
        i

  pub lrem_first-Known :
      (w : World R) (k x : Text) → Known w → Known (record w { lists = R.lrem_first w.lists k x })
  lrem_first-Known w k x i =
      lists-Known w _
        (λ j. rw (R.lrange-lrem_first w.lists k x j) (
          All-if (HasRow w.db.jobs) (k === j) (remove_first x (R.lrange w.lists k))
            (R.lrange w.lists j)
            (All-remove_first (HasRow w.db.jobs) x (R.lrange w.lists k) (i.lists k)) (i.lists j)))
        i

  pub lrem_last-Known :
      (w : World R) (k x : Text) → Known w → Known (record w { lists = R.lrem_last w.lists k x })
  lrem_last-Known w k x i =
      lists-Known w _
        (λ j. rw (R.lrange-lrem_last w.lists k x j) (
          All-if (HasRow w.db.jobs) (k === j) (remove_last x (R.lrange w.lists k))
            (R.lrange w.lists j)
            (All-remove_last (HasRow w.db.jobs) x (R.lrange w.lists k) (i.lists k)) (i.lists j)))
        i

  pub lmove_left-Known :
      (w : World R) (src dst : Text)
      → (src === dst) ≡ false
      → Known w
      → Known (record w { lists = R.lmove_left w.lists src dst })
  lmove_left-Known w src dst ne i =
      lists-Known w _
        (λ j.
          rw (R.lrange-lmove_left w.lists src dst j ne)
            (All-move_left (HasRow w.db.jobs) src dst (R.lrange w.lists) j i.lists))
        i

  pub lmove_right-Known :
      (w : World R) (src dst : Text)
      → (src === dst) ≡ false
      → Known w
      → Known (record w { lists = R.lmove_right w.lists src dst })
  lmove_right-Known w src dst ne i =
      lists-Known w _
        (λ j.
          rw (R.lrange-lmove_right w.lists src dst j ne)
            (All-move_right (HasRow w.db.jobs) src dst (R.lrange w.lists) j i.lists))
        i

  pub zadd-Known :
      (w : World R) (score : ℕ) (x : Text)
      → HasRow w.db.jobs x
      → Known w
      → Known (record w { delayed = R.zadd w.delayed score x })
  zadd-Known w score x h i = record {
    lists = i.lists;
    delayed = λ y. elim (Bool-cases (x === y)) [
      | inl e ↦ inr (subst (HasRow w.db.jobs) ((===_iff x y).0 e) h)
      | inr e ↦ rw (R.zscore-zadd w.delayed score x y, e) (i.delayed y)
    ];
  }

  pub zrem-Known :
      (w : World R) (x : Text) → Known w → Known (record w { delayed = R.zrem w.delayed x })
  zrem-Known w x i = record {
    lists = i.lists;
    delayed = λ y. elim (Bool-cases (x === y)) [
      | inl e ↦ rw (R.zscore-zrem w.delayed x y, e) (inl refl)
      | inr e ↦ rw (R.zscore-zrem w.delayed x y, e) (i.delayed y)
    ];
  }

  -- Every command of the process keeps `Known`, and `Q` holds of its result.
  abbrev pub Keeps : {A : Type 0} → (A → World R → Type 0) → Proc (World R) A → World R → Type 0
  Keeps Q p s = Safe Known Grows Q p s

  abbrev pub Any : {A : Type 0} → A → World R → Type 0
  Any a w = Unit {0}

  -- Processes one after the other.
  pub Keeps-bind :
      {A B : Type 0} (p : Proc (World R) A) (f : A → Proc (World R) B) (s : World R)
      → Keeps Any p s
      → ((a : A) (t : World R) → Keeps Any (f a) t)
      → Keeps Any (p >>= f) s
  Keeps-bind p f s h hf = Safe-bind Known Grows Any Any p f s h (λ a t _. hf a t)

  pub update-Keeps :
      (w : World R) (id : Text) (guard : JobRow → Bool) (set : JobRow → JobRow)
      → ((r : JobRow) → (set r).id ≡ r.id)
      → Known w
      → let w' = record w { db = record w.db { jobs = update id guard set w.db.jobs } } in
        Known w' × Grows w w'
  update-Keeps w id guard set keep i = (
    jobs-Known w (update id guard set w.db.jobs) (update-Grows w id guard set keep) i,
    update-Grows w id guard set keep,
  )

  -- The same, with a fact that rows make true and that the second process starts from.
  pub Keeps-then :
      {A B : Type 0} (F : World R → Type 0) (p : Proc (World R) A) (f : A → Proc (World R) B)
      (s : World R)
      → ((a b : World R) → Grows a b → F a → F b)
      → F s
      → Keeps Any p s
      → ((a : A) (t : World R) → F t → Keeps Any (f a) t)
      → Keeps Any (p >>= f) s
  Keeps-then F p f s lasts h hp hf =
      Safe-bind Known Grows (λ a t. F t) Any p f s (Safe-lasting Known Grows Any F lasts p s h hp)
        hf
