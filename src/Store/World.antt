-- ===== src/Store/World.antt =====
-- The state that all processes share: the time, the database and the three kinds of Redis key.
-- One command of the code is one process step here.
use queue_flow.Base.{
  ℕ, zero, suc, Bool, true, false, Text, codes, ◌===◌, Option, none, some, List, [], ◌++◌,
}
use queue_flow.Store.Jobs.{Db, find, update, returning}
use queue_flow.Store.Redis.{Redis}
use queue_flow.Proc.{Proc, done, ◌>>=◌, read, write, command}
use queue_flow.Types.{JobRow}

pub record World (R : Redis) : Type 0 where
  pub clock : ℕ
  pub db : Db
  pub lists : R.Lists
  pub delayed : R.Delayed
  pub beats : R.Beats

abbrev pub is_some {ℓ} : {A : Type ℓ} → Option A → Bool
is_some none = false
is_some (some a) = true

module _ (R : Redis) where
  -- `query(db, "SELECT … FROM jobs WHERE id = $1", [id])`, first row.
  abbrev pub select_job : Text → Proc (World R) (Option JobRow)
  select_job id = read (λ w. find id w.db.jobs)

  -- `query(db, "UPDATE jobs SET … WHERE id = $1 AND … RETURNING …", [id])`, first row; `set` is
  -- given `now()`.
  abbrev pub update_job :
      Text → (JobRow → Bool) → (ℕ → JobRow → JobRow) → Proc (World R) (Option JobRow)
  update_job id guard set =
      command
        (λ w. record w { db = record w.db { jobs = update id guard (set w.clock) w.db.jobs } })
        (λ w. returning id guard (set w.clock) w.db.jobs)

  abbrev pub zadd : ℕ → Text → Proc (World R) (Unit {0})
  zadd score id = write (λ w. record w { delayed = R.zadd w.delayed score id })

  abbrev pub read_clock : Proc (World R) ℕ
  read_clock = read (λ w. w.clock)

  abbrev pub lrange : Text → Proc (World R) (List Text)
  lrange key = read (λ w. R.lrange w.lists key)

  abbrev pub lindex_last : Text → Proc (World R) (Option Text)
  lindex_last key = read (λ w. R.lindex_last w.lists key)

  abbrev pub on_lists : (R.Lists → R.Lists) → World R → World R
  on_lists f w = record w { lists = f w.lists }

  abbrev pub lpush : Text → Text → Proc (World R) (Unit {0})
  lpush key x = write (on_lists (λ l. R.lpush l key x))

  abbrev pub rpush : Text → Text → Proc (World R) (Unit {0})
  rpush key x = write (on_lists (λ l. R.rpush l key x))

  abbrev pub lrem_first : Text → Text → Proc (World R) (Unit {0})
  lrem_first key x = write (on_lists (λ l. R.lrem_first l key x))

  abbrev pub lrem_last : Text → Text → Proc (World R) (Unit {0})
  lrem_last key x = write (on_lists (λ l. R.lrem_last l key x))

  -- LMOVE replies with the entry that it moved, the last one of the source.
  abbrev pub lmove_left : Text → Text → Proc (World R) (Option Text)
  lmove_left src dst =
      command (on_lists (λ l. R.lmove_left l src dst)) (λ w. R.lindex_last w.lists src)

  abbrev pub lmove_right : Text → Text → Proc (World R) (Option Text)
  lmove_right src dst =
      command (on_lists (λ l. R.lmove_right l src dst)) (λ w. R.lindex_last w.lists src)

  -- ZREM replies with the number of members removed: here, whether there was one.
  abbrev pub zrem : Text → Proc (World R) Bool
  zrem x =
      command (λ w. record w { delayed = R.zrem w.delayed x }) (λ w. is_some (R.zscore w.delayed x))

  abbrev pub key_exists : Text → Proc (World R) Bool
  key_exists key = read (λ w. R.exists w.beats w.clock key)

  -- `scanKeys` of src/shared/keys.ts: pages until the cursor is "0" again. `none`: the fuel ran out.
  unfoldable pub scan_from : ℕ → Text → Text → List Text → Proc (World R) (Option (List Text))
  scan_from zero pattern cursor found = done none
  scan_from (suc fuel) pattern cursor found = do
    page ← read (λ w. R.scan w.lists w.beats cursor pattern)
    elim (page.0 === codes "0") [
      | true ↦ done (some (found ++ page.1))
      | false ↦ scan_from fuel pattern page.0 (found ++ page.1)
    ]

  unfoldable pub scan_keys : ℕ → Text → Proc (World R) (Option (List Text))
  unfolding scan_from
  scan_keys fuel pattern = scan_from fuel pattern (codes "0") []
