-- ===== src/Api/Listing.antt =====
-- src/api/index.ts: GET /jobs, and its walk from page to page. A cursor is the pair that
-- encodeCursor writes; `shown` is the part of a timestamp that toISOString keeps.
pub mod Order
pub mod Pages
use queue_flow.Base.{
  ℕ, zero, suc, ◌+◌, Bool, true, false, ◌&&◌, ◌||◌, Option, none, some, List, [], ◌∷◌, ◌++◌, map,
  Text, ltb, ◌==◌, if◌then◌else◌, length, take, last?,
}
use queue_flow.Proc.{Proc, read}
use queue_flow.Types.{
  JobRow, JobRecord, JobStatus, queued, running, retrying, succeeded, failed, dead, row_to_job,
}
use queue_flow.Store.Redis.{Redis}
use queue_flow.Store.World.{World}
use queue_flow.Api.Reads.{same_status}

pub record Cursor : Type 0 where
  pub t : ℕ
  pub id : Text

-- `<` on ids: uuids in lower case compare as their digits do.
unfoldable pub text_ltb : Text → Text → Bool
text_ltb s [] = false
text_ltb [] (d ∷ ds) = true
text_ltb (c ∷ cs) (d ∷ ds) = ltb c d || ((c == d) && text_ltb cs ds)

-- `(t, id) < (u, jd)`
unfoldable pub key_ltb : ℕ → Text → ℕ → Text → Bool
unfolding text_ltb
key_ltb t id u jd = ltb t u || ((t == u) && text_ltb id jd)

unfoldable pub newer : JobRow → JobRow → Bool
unfolding key_ltb
newer r x = key_ltb x.created_at x.id r.created_at r.id

unfoldable pub insert_desc : JobRow → List JobRow → List JobRow
unfolding newer
insert_desc r [] = r ∷ []
insert_desc r (x ∷ xs) = let rest = insert_desc r xs in if newer r x then r ∷ x ∷ xs else x ∷ rest

-- `ORDER BY created_at DESC, id DESC`
unfoldable pub sort_desc : List JobRow → List JobRow
unfolding insert_desc
sort_desc [] = []
sort_desc (r ∷ rs) = insert_desc r (sort_desc rs)

unfoldable pub keep : (JobRow → Bool) → List JobRow → List JobRow
keep p [] = []
keep p (r ∷ rs) = let rest = keep p rs in if p r then r ∷ rest else rest

abbrev pub has_status : Option JobStatus → JobRow → Bool
has_status none r = true
has_status (some s) r = same_status s r.status

abbrev pub is_before : Option Cursor → JobRow → Bool
is_before none r = true
is_before (some c) r = key_ltb r.created_at r.id c.t c.id

-- `SELECT … WHERE … ORDER BY … LIMIT`
pub select_page : Option JobStatus → Option Cursor → ℕ → List JobRow → List JobRow
unfolding keep sort_desc
select_page status cursor n jobs =
    take n (keep (λ r. has_status status r && is_before cursor r) (sort_desc jobs))

pub record Page : Type 0 where
  pub jobs : List JobRecord
  pub next_cursor : Option Cursor

abbrev pub and_then : List JobRecord → Option (List JobRecord) → Option (List JobRecord)
and_then jobs none = none
and_then jobs (some rest) = some (jobs ++ rest)

module _ (shown : ℕ → ℕ) where
  abbrev pub cursor_of : Option JobRow → Option Cursor
  cursor_of none = none
  cursor_of (some r) = some (record { t = shown r.created_at; id = r.id })

  pub page_of : ℕ → List JobRow → Page
  page_of limit rows = record {
    jobs = map row_to_job (take limit rows);
    next_cursor = if ltb limit (length rows) then cursor_of (last? (take limit rows)) else none;
  }

  pub list_page : Option JobStatus → ℕ → Option Cursor → List JobRow → Page
  unfolding page_of select_page
  list_page status limit cursor jobs = page_of limit (select_page status cursor (limit + 1) jobs)

  -- GET /jobs, with its parameters parsed.
  pub get_jobs : (R : Redis) → Option JobStatus → ℕ → Option Cursor → Proc (World R) Page
  unfolding list_page
  get_jobs R status limit cursor = read (λ w. list_page status limit cursor w.db.jobs)

  -- All pages, one after the other, as the dashboard loads them; `none`: the fuel ran out.
  pub walk : Option JobStatus → ℕ → List JobRow → ℕ → Option Cursor → Option (List JobRecord)
  unfolding list_page
  walk status limit jobs zero cursor = none
  walk status limit jobs (suc fuel) cursor =
      let page = list_page status limit cursor jobs in
      elim page.next_cursor [
        | none ↦ some page.jobs
        | some c ↦ and_then page.jobs (walk status limit jobs fuel (some c))
      ]
