-- ===== src/Api/Listing/Order.antt =====
-- src/api/index.ts: the order of GET /jobs, newest first.
use queue_flow.Base.{
  ◌≡◌, ◌⊎◌, refl, inl, inr, Bool, true, false, List, [], ◌∷◌, Text, ◌===◌, All, All-map, Bool-cases,
  arith,
}
use queue_flow.Types.{JobRow}
use queue_flow.Api.Listing.{text_ltb, key_ltb, newer, insert_desc, sort_desc, keep}

text_ltb_irrefl : (s : Text) → text_ltb s s ≡ false
unfolding text_ltb
text_ltb_irrefl [] = refl
text_ltb_irrefl (c ∷ cs) = ground (arith, text_ltb_irrefl cs)

text_ltb_trans : (s t u : Text) → text_ltb s t ≡ true → text_ltb t u ≡ true → text_ltb s u ≡ true
unfolding text_ltb
text_ltb_trans s t [] h k = cc
text_ltb_trans s [] (e ∷ u) h k = cc
text_ltb_trans [] (d ∷ t) (e ∷ u) h k = refl
text_ltb_trans (c ∷ s) (d ∷ t) (e ∷ u) h k = ground (arith, text_ltb_trans s t u)

text_ltb_total : (s t : Text) → (s === t) ≡ false → (text_ltb s t ≡ true) ⊎ (text_ltb t s ≡ true)
unfolding text_ltb ◌===◌
text_ltb_total [] [] h = cc
text_ltb_total [] (d ∷ t) h = inl refl
text_ltb_total (c ∷ s) [] h = inr refl
text_ltb_total (c ∷ s) (d ∷ t) h = ground (arith, text_ltb_total s t)

pub newer_irrefl : (r : JobRow) → newer r r ≡ false
unfolding newer key_ltb
newer_irrefl r = ground (arith, text_ltb_irrefl r.id)

newer_trans : (r x y : JobRow) → newer r x ≡ true → newer x y ≡ true → newer r y ≡ true
unfolding newer key_ltb
newer_trans r x y h k = ground (arith, text_ltb_trans y.id x.id r.id)

pub newer_asym : (r x : JobRow) → newer r x ≡ true → newer x r ≡ false
newer_asym r x h = elim (Bool-cases (newer x r)) [
  | inl k ↦ cc (newer_trans r x r h k, newer_irrefl r)
  | inr k ↦ k
]

newer_total : (r x : JobRow) → (r.id === x.id) ≡ false → newer r x ≡ false → newer x r ≡ true
unfolding newer key_ltb
newer_total r x ne h = ground (arith, text_ltb_total r.id x.id)

-- Different ids: `id` is the primary key.
abbrev pub Distinct : List JobRow → Type 0
Distinct [] = Unit
Distinct (r ∷ rs) = All (λ x. (r.id === x.id) ≡ false) rs × Distinct rs

-- Each row is newer than all that follow.
abbrev pub Desc : List JobRow → Type 0
Desc [] = Unit
Desc (r ∷ rs) = All (λ x. newer r x ≡ true) rs × Desc rs

All-insert_desc :
    (P : JobRow → Type 0) (r : JobRow) (xs : List JobRow)
    → P r
    → All P xs
    → All P (insert_desc r xs)
unfolding insert_desc
All-insert_desc P r [] h hs = (h, tt)
All-insert_desc P r (x ∷ xs) h hs = elim (Bool-cases (newer r x)) [
  | inl e ↦ rw e (h, hs)
  | inr e ↦ rw e (hs.0, All-insert_desc P r xs h hs.1)
]

insert_desc-Desc :
    (r : JobRow) (xs : List JobRow)
    → All (λ x. (r.id === x.id) ≡ false) xs
    → Desc xs
    → Desc (insert_desc r xs)
unfolding insert_desc
insert_desc-Desc r [] ne d = (tt, tt)
insert_desc-Desc r (x ∷ xs) ne d = elim (Bool-cases (newer r x)) [
  | inl e ↦ rw e ((e, All-map _ _ xs (λ y k. newer_trans r x y e k) d.0), d)
  | inr e ↦ rw e (
    All-insert_desc (λ y. newer x y ≡ true) r xs (newer_total r x ne.0 e) d.0,
    insert_desc-Desc r xs ne.1 d.1,
  )
]

pub All-sort_desc : (P : JobRow → Type 0) (rs : List JobRow) → All P rs → All P (sort_desc rs)
unfolding sort_desc
All-sort_desc P [] h = tt
All-sort_desc P (r ∷ rs) h = All-insert_desc P r (sort_desc rs) h.0 (All-sort_desc P rs h.1)

pub sort_desc-Desc : (rs : List JobRow) → Distinct rs → Desc (sort_desc rs)
unfolding sort_desc
sort_desc-Desc [] d = tt
sort_desc-Desc (r ∷ rs) d =
    insert_desc-Desc r (sort_desc rs) (All-sort_desc _ rs d.0) (sort_desc-Desc rs d.1)

pub All-keep :
    (P : JobRow → Type 0) (p : JobRow → Bool) (rs : List JobRow) → All P rs → All P (keep p rs)
unfolding keep
All-keep P p [] h = tt
All-keep P p (r ∷ rs) h = elim (Bool-cases (p r)) [
  | inl e ↦ rw e (h.0, All-keep P p rs h.1)
  | inr e ↦ rw e (All-keep P p rs h.1)
]

pub keep-Desc : (p : JobRow → Bool) (rs : List JobRow) → Desc rs → Desc (keep p rs)
unfolding keep
keep-Desc p [] d = tt
keep-Desc p (r ∷ rs) d = elim (Bool-cases (p r)) [
  | inl e ↦ rw e (All-keep _ p rs d.0, keep-Desc p rs d.1)
  | inr e ↦ rw e (keep-Desc p rs d.1)
]
