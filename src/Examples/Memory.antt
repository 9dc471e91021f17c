-- ===== src/Examples/Memory.antt =====
-- A Redis in memory, which meets every law of the interface, and a world to run in.
use queue_flow.Base.{
  ℕ, zero, suc, ◌+◌, ◌-◌, ◌/◌, ◌*◌, ◌≤◌, ◌≡◌, refl, ◌⊎◌, inl, inr, Bool, true, false, Option, none,
  some, List, [], ◌∷◌, ◌++◌, Text, codes, ◌===◌, ===_iff, if◌then◌else◌, length, take, length-take,
  last?, All, ltb, leb, min, arith, Bool-cases,
}
use queue_flow.Store.Redis.{Redis, contains, remove_first, remove_last, move_left, move_right}

abbrev pub put : (Text → List Text) → Text → List Text → Text → List Text
put s k xs j = if k === j then xs else s j

abbrev pub score_of : List (Text × ℕ) → Text → Option ℕ
score_of [] y = none
score_of ((x, n) ∷ s) y = if x === y then some n else score_of s y

abbrev pub without : Text → List (Text × ℕ) → List (Text × ℕ)
without x [] = []
without x ((y, n) ∷ s) = let rest = without x s in if y === x then rest else (y, n) ∷ rest

abbrev pub is_due : Option ℕ → ℕ → Bool
is_due none n = false
is_due (some m) n = leb m n

abbrev pub min_score : List (Text × ℕ) → Option ℕ
min_score [] = none
min_score ((x, n) ∷ s) = elim (min_score s) [ none ↦ some n | some m ↦ some (min n m) ]

-- The members of `todo` that are due.
abbrev pub due_of : List (Text × ℕ) → List (Text × ℕ) → ℕ → List Text
due_of s [] n = []
due_of s ((x, m) ∷ todo) n =
    let rest = due_of s todo n in if is_due (score_of s x) n then x ∷ rest else rest

pub score_of-without :
    (x y : Text) (s : List (Text × ℕ))
    → score_of (without x s) y ≡ (if x === y then none else score_of s y)
score_of-without x y [] = ground (arith, ===_iff x y)
score_of-without x y ((z, n) ∷ s) =
    ground (arith, ===_iff x y, ===_iff z x, ===_iff z y, score_of-without x y s)

due_score : (o : Option ℕ) (n : ℕ) → is_due o n ≡ true → (m : ℕ) × (o ≡ some m) × (m ≤ n)
due_score none n h = cc
due_score (some m) n h = (m, refl, ground arith)

pub due_of-due :
    (s todo : List (Text × ℕ)) (n : ℕ)
    → All (λ x. (m : ℕ) × (score_of s x ≡ some m) × (m ≤ n)) (due_of s todo n)
due_of-due s [] n = tt
due_of-due s ((x, k) ∷ todo) n = elim (Bool-cases (is_due (score_of s x) n)) [
  | inl e ↦ rw e (due_score (score_of s x) n e, due_of-due s todo n)
  | inr e ↦ rw e (due_of-due s todo n)
]

pub All-take : (P : Text → Type 0) (n : ℕ) (xs : List Text) → All P xs → All P (take n xs)
All-take P zero xs h = tt
All-take P (suc n) [] h = tt
All-take P (suc n) (x ∷ xs) h = (h.0, All-take P n xs h.1)

pub is_due-some : (o : Option ℕ) (m n : ℕ) → o ≡ some m → m ≤ n → is_due o n ≡ true
is_due-some none m n e h = cc
is_due-some (some k) m n e h = ground arith

pub due_of-all :
    (s todo : List (Text × ℕ)) (n m : ℕ) (x : Text)
    → score_of todo x ≡ some m
    → is_due (score_of s x) n ≡ true
    → contains x (due_of s todo n) ≡ true
unfolding contains
due_of-all s [] n m x e h = cc
due_of-all s ((y, k) ∷ todo) n m x e h =
    ground (arith, ===_iff y x, ===_iff x y, due_of-all s todo n m x)

pub contains-take :
    (n : ℕ) (xs : List Text) (x : Text)
    → contains x xs ≡ true
    → (contains x (take n xs) ≡ true) ⊎ (length (take n xs) ≡ n)
unfolding contains
contains-take zero xs x h = inr refl
contains-take (suc n) [] x h = cc
contains-take (suc n) (y ∷ ys) x h = ground (arith, contains-take n ys x)

abbrev pub is_live : Option ℕ → ℕ → Bool
is_live none now = false
is_live (some t) now = ltb now t

pub is_live-if :
    (b : Bool) (o p : Option ℕ) (now : ℕ)
    → is_live (if b then o else p) now ≡ (if b then is_live o now else is_live p now)
is_live-if true o p now = refl
is_live-if false o p now = refl

pub due_limit : (s : List (Text × ℕ)) (n limit : ℕ) → length (take limit (due_of s s n)) ≤ limit
due_limit s n limit = omega (arith, length-take {0} limit (due_of s s n))

-- Lists as functions of the key; the delayed set as an association list; one worker, w1, whose
-- list SCAN finds.
abbrev pub memory : Redis
memory = record {
  Lists = Text → List Text;
  lrange = λ s k. s k;
  lindex_last = λ s k. last? (s k);
  llen = λ s k. length (s k);
  lpush = λ s k x. put s k (x ∷ s k);
  rpush = λ s k x. put s k (s k ++ (x ∷ []));
  lrem_first = λ s k x. put s k (remove_first x (s k));
  lrem_last = λ s k x. put s k (remove_last x (s k));
  lmove_left = λ s src dst. move_left (last? (s src)) src dst s;
  lmove_right = λ s src dst. move_right (last? (s src)) src dst s;
  lindex_last-lrange = λ s k. refl;
  llen-lrange = λ s k. refl;
  lrange-lpush = λ s k x j. refl;
  lrange-rpush = λ s k x j. refl;
  lrange-lrem_first = λ s k x j. refl;
  lrange-lrem_last = λ s k x j. refl;
  lrange-lmove_left = λ s src dst j ne. refl;
  lrange-lmove_right = λ s src dst j ne. refl;
  Delayed = List (Text × ℕ);
  zscore = score_of;
  zadd = λ s n x. (x, n) ∷ s;
  zrem = λ s x. without x s;
  zrangebyscore = λ s n limit. take limit (due_of s s n);
  zfirst = min_score;
  zcard = λ s. length s;
  zscore-zadd = λ s n x y. refl;
  zscore-zrem = λ s x y. score_of-without x y s;
  zrangebyscore-due = λ s n limit. All-take _ limit (due_of s s n) (due_of-due s s n);
  zrangebyscore-limit = due_limit;
  zrangebyscore-all = λ s n limit m x e h.
      contains-take limit (due_of s s n) x
        (due_of-all s s n m x e (is_due-some (score_of s x) m n e h));
  Beats = Text → Option ℕ;
  set_ex = λ s now k v seconds j. if k === j then some (now + seconds * 1000) else s j;
  del = λ s k j. if k === j then none else s j;
  exists = λ s now k. is_live (s k) now;
  ttl = λ s now k. elim (s k) [ none ↦ 0 | some t ↦ (t - now) / 1000 ];
  exists-set_ex =
      λ s now later seconds k v j. is_live-if (k === j) (some (now + seconds * 1000)) (s j) later;
  exists-del = λ s now k j. is_live-if (k === j) none (s j) now;
  scan = λ lists beats cursor pattern. (codes "0", codes "queueflow:processing:w1" ∷ []);
}
