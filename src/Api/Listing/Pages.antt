-- ===== src/Api/Listing/Pages.antt =====
-- src/api/index.ts: the pages of GET /jobs together.
use mathlib.Core.List.{append_assoc, map-append}
use queue_flow.Base.{
  ℕ, zero, suc, ◌+◌, ◌≤◌, ◌<◌, ◌≡◌, ◌∙◌, refl, sym, ap, subst, inl, inr, Bool, true, false, ◌&&◌,
  Option, none, some, List, [], ◌∷◌, ◌++◌, map, ltb, length, take, drop, length-take, last?,
  drop_last, last?-split, last?-none, All, Bool-cases, Option-cases, arith,
}
use queue_flow.Types.{JobRow, JobStatus, row_to_job}
use queue_flow.Api.Listing.{
  Cursor, newer, key_ltb, sort_desc, keep, has_status, is_before, select_page, cursor_of, page_of,
  list_page, and_then, walk,
}
use queue_flow.Api.Listing.Order.{
  Distinct, Desc, newer_irrefl, newer_asym, sort_desc-Desc, keep-Desc, All-keep, All-sort_desc,
}

take-take : (n : ℕ) (xs : List JobRow) → take n (take (suc n) xs) ≡ take n xs
take-take zero xs = refl
take-take (suc n) [] = refl
take-take (suc n) (x ∷ xs) = ap (λ l. x ∷ l) (take-take n xs)

take-long : (n : ℕ) (xs : List JobRow) → length xs ≤ n → take n xs ≡ xs
take-long zero [] h = refl
take-long zero (x ∷ xs) h = absurd (omega arith)
take-long (suc n) [] h = refl
take-long (suc n) (x ∷ xs) h = ap (λ l. x ∷ l) (take-long n xs (omega arith))

take-drop : (n : ℕ) (xs : List JobRow) → take n xs ++ drop n xs ≡ xs
take-drop zero xs = refl
take-drop (suc n) [] = refl
take-drop (suc n) (x ∷ xs) = ap (λ l. x ∷ l) (take-drop n xs)

length-drop : (n : ℕ) (xs : List JobRow) → n ≤ length xs → length (drop n xs) + n ≡ length xs
length-drop zero xs h = omega arith
length-drop (suc n) [] h = absurd (omega arith)
length-drop (suc n) (x ∷ xs) h = omega (arith, length-drop n xs)

All-right : (P : JobRow → Type 0) (xs ys : List JobRow) → All P (xs ++ ys) → All P ys
All-right P [] ys h = h
All-right P (x ∷ xs) ys h = All-right P xs ys h.1

keep-and : (p q : JobRow → Bool) (rs : List JobRow) → keep (λ r. p r && q r) rs ≡ keep q (keep p rs)
unfolding keep
keep-and p q [] = refl
keep-and p q (r ∷ rs) = ground (arith, keep-and p q rs)

keep-all : (p : JobRow → Bool) (rs : List JobRow) → All (λ r. p r ≡ true) rs → keep p rs ≡ rs
unfolding keep
keep-all p [] h = refl
keep-all p (r ∷ rs) h = rw (h.0) (ap (λ l. r ∷ l) (keep-all p rs h.1))

keep-true : (rs : List JobRow) → keep (λ r. true) rs ≡ rs
unfolding keep
keep-true [] = refl
keep-true (r ∷ rs) = ap (λ l. r ∷ l) (keep-true rs)

Desc-head :
    (xs : List JobRow) (r : JobRow) (ys : List JobRow)
    → Desc (xs ++ (r ∷ ys))
    → All (λ x. newer r x ≡ true) ys
Desc-head [] r ys d = d.0
Desc-head (x ∷ xs) r ys d = Desc-head xs r ys d.1

-- Of a list in order, the rows older than one of them are those after it.
keep-older :
    (xs : List JobRow) (r : JobRow) (ys : List JobRow)
    → Desc (xs ++ (r ∷ ys))
    → keep (newer r) (xs ++ (r ∷ ys)) ≡ ys
unfolding keep
keep-older [] r ys d = rw (newer_irrefl r) (keep-all (newer r) ys d.0)
keep-older (x ∷ xs) r ys d =
    let above : newer x r ≡ true = (All-right (λ y. newer x y ≡ true) xs (r ∷ ys) d.0).0 in
    rw (newer_asym x r above) (keep-older xs r ys d.1)

module _ (shown : ℕ → ℕ) (status : Option JobStatus) (limit : ℕ) (jobs : List JobRow) where
  abbrev pub listed : List JobRow
  listed = keep (has_status status) (sort_desc jobs)

  rows-after :
      (cursor : Option Cursor) (n : ℕ)
      → select_page status cursor n jobs ≡ take n (keep (is_before cursor) listed)
  unfolding select_page
  rows-after cursor n =
      ap (take n) (keep-and (has_status status) (is_before cursor) (sort_desc jobs))

  walk-last :
      (fuel : ℕ) (cursor : Option Cursor)
      → (list_page shown status limit cursor jobs).next_cursor ≡ none
      → walk shown status limit jobs (suc fuel) cursor
        ≡ some (list_page shown status limit cursor jobs).jobs
  unfolding walk
  walk-last fuel cursor e = rw (e, walk) refl

  walk-next :
      (fuel : ℕ) (cursor : Option Cursor) (c : Cursor)
      → (list_page shown status limit cursor jobs).next_cursor ≡ some c
      → walk shown status limit jobs (suc fuel) cursor
        ≡ and_then
            (list_page shown status limit cursor jobs).jobs
            (walk shown status limit jobs fuel (some c))
  unfolding walk
  walk-next fuel cursor c e = rw (e, walk) refl

  page-rows :
      (cursor : Option Cursor) (rest : List JobRow)
      → keep (is_before cursor) listed ≡ rest
      → list_page shown status limit cursor jobs ≡ page_of shown limit (take (suc limit) rest)
  unfolding list_page
  page-rows cursor rest k =
      let one_more : limit + 1 ≡ suc limit = omega arith in
      ap (page_of shown limit)
        (rows-after cursor (limit + 1) ∙ ap (take (limit + 1)) k ∙ ap (λ n. take n rest) one_more)

  page_of-short :
      (rest : List JobRow)
      → length rest ≤ limit
      → page_of shown limit (take (suc limit) rest)
        ≡ record { jobs = map row_to_job rest; next_cursor = none }
  unfolding page_of
  page_of-short rest h =
      let all_left : ltb limit (length rest) ≡ false = ground arith in
      ap (page_of shown limit) (take-long (suc limit) rest (omega arith))
      ∙ rw (take-long limit rest h, all_left) refl

  page_of-long :
      (rest : List JobRow) (r : JobRow)
      → limit < length rest
      → last? (take limit rest) ≡ some r
      → page_of shown limit (take (suc limit) rest)
        ≡ record { jobs = map row_to_job (take limit rest); next_cursor = cursor_of shown (some r) }
  unfolding page_of
  page_of-long rest r h l =
      let more : ltb limit (length (take (suc limit) rest)) ≡ true =
        ground (arith, length-take {0} (suc limit) rest) in
      rw (take-take limit rest, more, l) refl

  -- The rest of the list after the last row of a page.
  split_at_page :
      (front rest : List JobRow) (r : JobRow)
      → last? (take limit rest) ≡ some r
      → front ++ rest ≡ (front ++ drop_last (take limit rest)) ++ (r ∷ drop limit rest)
  split_at_page front rest r l =
      ap (λ t. front ++ t)
        (sym (take-drop limit rest)
          ∙ ap (λ t. t ++ drop limit rest) (last?-split (take limit rest) r l)
          ∙ append_assoc (drop_last (take limit rest)) (r ∷ []) (drop limit rest))
      ∙ sym (append_assoc front (drop_last (take limit rest)) (r ∷ drop limit rest))

  module _ (positive : 0 < limit) (distinct : Distinct jobs)
      (exact : All (λ r. shown r.created_at ≡ r.created_at) jobs) where
    listed-Desc : Desc listed
    listed-Desc = keep-Desc (has_status status) (sort_desc jobs) (sort_desc-Desc jobs distinct)

    listed-exact : All (λ r. shown r.created_at ≡ r.created_at) listed
    listed-exact = All-keep _ (has_status status) (sort_desc jobs) (All-sort_desc _ jobs exact)

    older :
        (front : List JobRow) (r : JobRow) (back : List JobRow)
        → listed ≡ front ++ (r ∷ back)
        → keep (is_before (cursor_of shown (some r))) listed ≡ back
    unfolding newer
    older front r back e =
        let same : shown r.created_at ≡ r.created_at =
          (All-right (λ x. shown x.created_at ≡ x.created_at) front (r ∷ back)
            (subst (All (λ x. shown x.created_at ≡ x.created_at)) e listed-exact)).0 in
        ap (λ t. keep (λ x. key_ltb x.created_at x.id t r.id) listed) same
        ∙ ap (keep (newer r)) e
        ∙ keep-older front r back (subst Desc e listed-Desc)

    walk-rest :
        (fuel : ℕ) (cursor : Option Cursor) (front rest : List JobRow)
        → listed ≡ front ++ rest
        → keep (is_before cursor) listed ≡ rest
        → length rest < fuel
        → walk shown status limit jobs fuel cursor ≡ some (map row_to_job rest)
    walk-rest zero cursor front rest e k h = absurd (omega arith)
    walk-rest (suc fuel) cursor front rest e k h = elim (Bool-cases (ltb limit (length rest))) [
      | inr short ↦
          let p = page-rows cursor rest k ∙ page_of-short rest (ground arith) in
          walk-last fuel cursor (ap (λ q. q.next_cursor) p) ∙ ap (λ q. some q.jobs) p
      | inl long ↦ elim (Option-cases (last? (take limit rest))) [
        | inl nothing ↦ absurd (
            ground
              (arith, ap length (last?-none (take limit rest) nothing), length-take {0} limit rest))
        | inr (r, l) ↦
            let p = page-rows cursor rest k ∙ page_of-long rest r (ground arith) l in
            let back = drop limit rest in
            let split = e ∙ split_at_page front rest r l in
            let ih =
              walk-rest fuel (cursor_of shown (some r))
                (front ++ drop_last (take limit rest) ++ (r ∷ [])) back
                (split ∙ sym (append_assoc (front ++ drop_last (take limit rest)) (r ∷ []) back))
                (older (front ++ drop_last (take limit rest)) r back split)
                (ground (arith, length-drop limit rest)) in
            walk-next fuel cursor _ (ap (λ q. q.next_cursor) p)
            ∙ ap
                (λ q.
                  and_then q.jobs (walk shown status limit jobs fuel (cursor_of shown (some r))))
                p
            ∙ ap (and_then (map row_to_job (take limit rest))) ih
            ∙ ap (λ t. some t)
                (sym (map-append row_to_job (take limit rest) back)
                  ∙ ap (map row_to_job) (take-drop limit rest))
      ]
    ]

    -- For a positive limit, rows with different ids and creation times that toISOString
    -- keeps exactly, with more fuel than there are rows: the pages of GET /jobs, each asked
    -- for with the cursor of the one before, give every row of the status asked for, newest
    -- first, once.
    pub walk-listed :
        (fuel : ℕ)
        → length listed < fuel
        → walk shown status limit jobs fuel none ≡ some (map row_to_job listed)
    walk-listed fuel h = walk-rest fuel none [] listed refl (keep-true listed) h
