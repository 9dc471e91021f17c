-- ===== src/Store/Redis.antt =====
-- Redis, through ioredis: the commands that the code sends, with their documented meaning.
-- It is not implemented here: the three kinds of key (lists, the sorted set, strings with a time to
-- live) are three abstract states, seen through what LRANGE, ZSCORE and EXISTS report.
use queue_flow.Base.{
  ℕ, ◌*◌, ◌+◌, ◌≡◌, ◌≤◌, ◌⊎◌, Bool, true, false, ◌||◌, Option, none, some, List, [], ◌∷◌, ◌++◌,
  Text, ◌===◌, if◌then◌else◌, length, last?, drop_last, All, ltb,
}

unfoldable pub contains : Text → List Text → Bool
contains x [] = false
contains x (y ∷ ys) = (x === y) || contains x ys

-- LREM with count 1: the first entry equal to `x` goes.
unfoldable pub remove_first : Text → List Text → List Text
remove_first x [] = []
remove_first x (y ∷ ys) = if x === y then ys else y ∷ remove_first x ys

-- LREM with count -1: the last one goes.
unfoldable pub remove_last : Text → List Text → List Text
remove_last x [] = []
remove_last x (y ∷ ys) =
    if contains x ys then y ∷ remove_last x ys else if x === y then ys else y ∷ ys

-- LMOVE source destination RIGHT LEFT, and RIGHT RIGHT, as seen at the key `j`.
abbrev pub move_left : Option Text → Text → Text → (Text → List Text) → Text → List Text
move_left none src dst view j = view j
move_left (some x) src dst view j =
    if dst === j then x ∷ view dst else if src === j then drop_last (view src) else view j

abbrev pub move_right : Option Text → Text → Text → (Text → List Text) → Text → List Text
move_right none src dst view j = view j
move_right (some x) src dst view j =
    if dst === j then view dst ++ (x ∷ []) else if src === j then drop_last (view src) else view j

pub record Redis : Type 1 where
  -- Lists.
  pub Lists : Type 0
  pub lrange : Lists → Text → List Text  -- LRANGE key 0 -1
  pub lindex_last : Lists → Text → Option Text  -- LINDEX key -1
  pub llen : Lists → Text → ℕ
  pub lpush : Lists → Text → Text → Lists
  pub rpush : Lists → Text → Text → Lists
  pub lrem_first : Lists → Text → Text → Lists  -- LREM key 1 x
  pub lrem_last : Lists → Text → Text → Lists  -- LREM key -1 x
  pub lmove_left : Lists → Text → Text → Lists  -- LMOVE src dst RIGHT LEFT
  pub lmove_right : Lists → Text → Text → Lists  -- LMOVE src dst RIGHT RIGHT
  pub lindex_last-lrange : (s : Lists) (k : Text) → lindex_last s k ≡ last? (lrange s k)
  pub llen-lrange : (s : Lists) (k : Text) → llen s k ≡ length (lrange s k)
  pub lrange-lpush :
      (s : Lists) (k x j : Text)
      → lrange (lpush s k x) j ≡ (if k === j then x ∷ lrange s k else lrange s j)
  pub lrange-rpush :
      (s : Lists) (k x j : Text)
      → lrange (rpush s k x) j ≡ (if k === j then lrange s k ++ (x ∷ []) else lrange s j)
  pub lrange-lrem_first :
      (s : Lists) (k x j : Text)
      → lrange (lrem_first s k x) j ≡ (if k === j then remove_first x (lrange s k) else lrange s j)
  pub lrange-lrem_last :
      (s : Lists) (k x j : Text)
      → lrange (lrem_last s k x) j ≡ (if k === j then remove_last x (lrange s k) else lrange s j)
  -- Between two different keys; a list moved onto itself rotates, which the code never does.
  pub lrange-lmove_left :
      (s : Lists) (src dst j : Text)
      → (src === dst) ≡ false
      → lrange (lmove_left s src dst) j ≡ move_left (last? (lrange s src)) src dst (lrange s) j
  pub lrange-lmove_right :
      (s : Lists) (src dst j : Text)
      → (src === dst) ≡ false
      → lrange (lmove_right s src dst) j ≡ move_right (last? (lrange s src)) src dst (lrange s) j
  -- The sorted set at `queueflow:delayed`.
  pub Delayed : Type 0
  pub zscore : Delayed → Text → Option ℕ
  pub zadd : Delayed → ℕ → Text → Delayed
  pub zrem : Delayed → Text → Delayed
  pub zrangebyscore : Delayed → ℕ → ℕ → List Text  -- from 0 to the first number, at most the second
  pub zfirst : Delayed → Option ℕ  -- the score that ZRANGE key 0 0 WITHSCORES shows
  pub zcard : Delayed → ℕ
  pub zscore-zadd :
      (s : Delayed) (n : ℕ) (x y : Text)
      → zscore (zadd s n x) y ≡ (if x === y then some n else zscore s y)
  pub zscore-zrem :
      (s : Delayed) (x y : Text) → zscore (zrem s x) y ≡ (if x === y then none else zscore s y)
  pub zrangebyscore-due :
      (s : Delayed) (n limit : ℕ)
      → All (λ x. (m : ℕ) × (zscore s x ≡ some m) × (m ≤ n)) (zrangebyscore s n limit)
  pub zrangebyscore-limit : (s : Delayed) (n limit : ℕ) → length (zrangebyscore s n limit) ≤ limit
  -- Fewer than the limit are all that are due.
  pub zrangebyscore-all :
      (s : Delayed) (n limit m : ℕ) (x : Text)
      → zscore s x ≡ some m
      → m ≤ n
      → (contains x (zrangebyscore s n limit) ≡ true) ⊎ (length (zrangebyscore s n limit) ≡ limit)
  -- Strings with a time to live, in seconds; the time of the command is given in milliseconds.
  pub Beats : Type 0
  pub set_ex : Beats → ℕ → Text → Text → ℕ → Beats
  pub del : Beats → Text → Beats
  pub exists : Beats → ℕ → Text → Bool
  pub ttl : Beats → ℕ → Text → ℕ  -- 0 where the key is gone
  pub exists-set_ex :
      (s : Beats) (now later seconds : ℕ) (k v j : Text)
      → exists (set_ex s now k v seconds) later j
        ≡ (if k === j then ltb later (now + seconds * 1000) else exists s later j)
  pub exists-del :
      (s : Beats) (now : ℕ) (k j : Text)
      → exists (del s k) now j ≡ (if k === j then false else exists s now j)
  -- One page of SCAN over the keyspace: the next cursor and the keys found.
  pub scan : Lists → Beats → Text → Text → Text × List Text
