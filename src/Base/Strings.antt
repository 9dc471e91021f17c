-- ===== src/Base/Strings.antt =====
-- String methods of the language, on code points: split, indexOf with slice, trim, startsWith, and
-- the digits that String(n) writes.
use Prim.Native.Nat.{◌-◌, ◌*◌, ℕ, zero, suc, ◌+◌, ◌*◌, ◌/◌, ◌%◌, ◌<◌}
use mathlib.Core.Path.{◌≡◌, refl, ap, ◌∙◌}
use mathlib.Core.Logic.{inl, inr}
use mathlib.Core.Bool.{Bool, true, false, not, ◌&&◌, ◌||◌}
use mathlib.Core.Option.{Option, none, some}
use mathlib.Core.List.{List, [], ◌∷◌, ◌++◌}
use native.Mathlib.Omega.{arith}
use queue_flow.Base.Tests.{ltb, leb, ◌==◌, if◌then◌else◌, Bool-cases}
use queue_flow.Base.Texts.{Text}

abbrev pub is_nil : Text → Bool
is_nil [] = true
is_nil (c ∷ cs) = false

-- Every code point passes the test.
abbrev pub all : (ℕ → Bool) → Text → Bool
all p [] = true
all p (c ∷ cs) = p c && all p cs

pub all-append :
    (p : ℕ → Bool) (s t : Text) → all p s ≡ true → all p t ≡ true → all p (s ++ t) ≡ true
all-append p [] t h k = k
all-append p (c ∷ s) t h k = ground (arith, all-append p s t)

-- No code point is `c`.
abbrev pub lacks : ℕ → Text → Bool
lacks c t = all (λ x. not (x == c)) t

prepend : ℕ → List Text → List Text
prepend c [] = (c ∷ []) ∷ []
prepend c (p ∷ ps) = (c ∷ p) ∷ ps

-- `t.split(c)`
unfoldable pub split_on : ℕ → Text → List Text
unfolding prepend
split_on c [] = [] ∷ []
split_on c (x ∷ xs) = let rest = split_on c xs in if x == c then [] ∷ rest else prepend x rest

pub split_on-lacks : (c : ℕ) (t : Text) → lacks c t ≡ true → split_on c t ≡ t ∷ []
unfolding split_on
split_on-lacks c [] h = refl
split_on-lacks c (x ∷ t) h = ground (arith, split_on-lacks c t)

pub split_on-append :
    (c : ℕ) (t rest : Text) → lacks c t ≡ true → split_on c (t ++ (c ∷ rest)) ≡ t ∷ split_on c rest
unfolding split_on
split_on-append c [] rest h = ground arith
split_on-append c (x ∷ t) rest h = ground (arith, split_on-append c t rest)

-- `t.slice(0, t.indexOf(c))` and `t.slice(t.indexOf(c) + 1)`; `none` where the index is -1.
unfoldable pub cut_at : ℕ → Text → Option (Text × Text)
cut_at c [] = none
cut_at c (x ∷ xs) =
    let rest = cut_at c xs in
    if x == c then some ([], xs) else elim rest [ none ↦ none | some (l, r) ↦ some (x ∷ l, r) ]

pub cut_at-append :
    (c : ℕ) (t rest : Text) → lacks c t ≡ true → cut_at c (t ++ (c ∷ rest)) ≡ some (t, rest)
unfolding cut_at
cut_at-append c [] rest h = ground arith
cut_at-append c (x ∷ t) rest h = ground (arith, cut_at-append c t rest)

-- White space and line terminators, as `trim` takes them off.
unfoldable pub is_space : ℕ → Bool
is_space c =
    (leb 9 c && leb c 13)
    || (c == 32)
    || (c == 0xa0)
    || (c == 0x1680)
    || (leb 0x2000 c && leb c 0x200a)
    || (c == 0x2028)
    || (c == 0x2029)
    || (c == 0x202f)
    || (c == 0x205f)
    || (c == 0x3000)
    || (c == 0xfeff)

trim_start : Text → Text
unfolding is_space
trim_start [] = []
trim_start (c ∷ cs) = let rest = trim_start cs in if is_space c then rest else c ∷ cs

trim_end : Text → Text
unfolding is_space
trim_end [] = []
trim_end (c ∷ cs) = let rest = trim_end cs in if is_space c && is_nil rest then [] else c ∷ rest

unfoldable pub trim : Text → Text
unfolding trim_start trim_end
trim t = trim_end (trim_start t)

abbrev pub is_solid : ℕ → Bool
is_solid c = not (is_space c)

trim_end-solid : (t : Text) → all is_solid t ≡ true → trim_end t ≡ t
unfolding trim_end
trim_end-solid [] h = refl
trim_end-solid (c ∷ cs) h = ground (arith, trim_end-solid cs)

trim_start-solid : (t : Text) → all is_solid t ≡ true → trim_start t ≡ t
unfolding trim_start
trim_start-solid [] h = refl
trim_start-solid (c ∷ cs) h = ground arith

pub trim-solid : (t : Text) → all is_solid t ≡ true → trim t ≡ t
unfolding trim
trim-solid t h = ap trim_end (trim_start-solid t h) ∙ trim_end-solid t h

-- `t.slice(p.length)` where `t.startsWith(p)`.
unfoldable pub after_prefix : Text → Text → Option Text
after_prefix [] t = some t
after_prefix (p ∷ ps) [] = none
after_prefix (p ∷ ps) (c ∷ cs) = if p == c then after_prefix ps cs else none

pub after_prefix-append : (p t : Text) → after_prefix p (p ++ t) ≡ some t
unfolding after_prefix
after_prefix-append [] t = refl
after_prefix-append (c ∷ p) t = ground (arith, after_prefix-append p t)

-- `String(n)`: the decimal digits of a natural number.
digits : ℕ → ℕ → Text
digits zero n = []
digits (suc fuel) n = elim (ltb n 10) [
  | true ↦ (b'0' + n) ∷ []
  | false ↦ digits fuel (n / 10) ++ ((b'0' + n % 10) ∷ [])
]

unfoldable pub decimal : ℕ → Text
unfolding digits
decimal n = digits (suc n) n

-- The tests that every digit passes, every text of digits passes.
all-digits :
    (p : ℕ → Bool)
    → ((d : ℕ) → d < 10 → p (b'0' + d) ≡ true)
    → (fuel n : ℕ) → all p (digits fuel n) ≡ true
unfolding digits
all-digits p h zero n = refl
all-digits p h (suc fuel) n = elim (Bool-cases (ltb n 10)) [
  | inl e ↦ rw (e, all) (ground (arith, h n))
  | inr e ↦
      rw (e, all)
        (all-append p (digits fuel (n / 10)) ((b'0' + n % 10) ∷ []) (all-digits p h fuel (n / 10))
          (ground (arith, h (n % 10) (omega arith))))
]

pub all-decimal :
    (p : ℕ → Bool) → ((d : ℕ) → d < 10 → p (b'0' + d) ≡ true) → (n : ℕ) → all p (decimal n) ≡ true
unfolding decimal
all-decimal p h n = all-digits p h (suc n) n

append_one-nil : (s : Text) (c : ℕ) → is_nil (s ++ (c ∷ [])) ≡ false
append_one-nil [] c = refl
append_one-nil (d ∷ s) c = refl

pub decimal-nil : (n : ℕ) → is_nil (decimal n) ≡ false
unfolding decimal digits
decimal-nil n = elim (Bool-cases (ltb n 10)) [
  | inl e ↦ rw (e, is_nil) refl
  | inr e ↦ rw (e, is_nil) (append_one-nil (digits n (n / 10)) (b'0' + n % 10))
]

-- The number that a text of digits writes.
value_from : ℕ → Text → ℕ
value_from n [] = n
value_from n (c ∷ cs) = value_from (10 * n + (c - b'0')) cs

pub value_of : Text → ℕ
unfolding value_from
value_of t = value_from 0 t

value_from-append :
    (n : ℕ) (s : Text) (c : ℕ) → value_from n (s ++ (c ∷ [])) ≡ 10 * value_from n s + (c - b'0')
unfolding value_from
value_from-append n [] c = refl
value_from-append n (d ∷ s) c = value_from-append (10 * n + (d - b'0')) s c

digits-one : (fuel n : ℕ) → ltb n 10 ≡ true → digits (suc fuel) n ≡ (b'0' + n) ∷ []
unfolding digits
digits-one fuel n e = rw (e, digits) refl

digits-more :
    (fuel n : ℕ)
    → ltb n 10 ≡ false
    → digits (suc fuel) n ≡ digits fuel (n / 10) ++ ((b'0' + n % 10) ∷ [])
unfolding digits
digits-more fuel n e = rw (e, digits) refl

digits_value : (fuel n : ℕ) → n < fuel → value_from 0 (digits fuel n) ≡ n
unfolding digits value_from
digits_value zero n h = omega (arith, h)
digits_value (suc fuel) n h = elim (Bool-cases (ltb n 10)) [
  | inl e ↦ ap (value_from 0) (digits-one fuel n e) ∙ omega arith
  | inr e ↦
      let rest = digits_value fuel (n / 10) (ground (arith, h, e)) in
      ap (value_from 0) (digits-more fuel n e)
      ∙ value_from-append 0 (digits fuel (n / 10)) (b'0' + n % 10)
      ∙ omega (arith, rest)
]

pub decimal-value : (n : ℕ) → value_of (decimal n) ≡ n
unfolding decimal value_of
decimal-value n = digits_value (suc n) n (omega arith)
