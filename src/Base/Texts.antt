-- ===== src/Base/Texts.antt =====
-- Text as the list of its code points, with a Boolean equality.
use Prim.Native.Nat.{ℕ}
use Prim.Native.Char.{code}
use Prim.Native.String.{String}
use mathlib.Core.Path.{◌≡◌, refl}
use mathlib.Core.Logic.{◌↔◌}
use mathlib.Core.Bool.{Bool, true, false, ◌&&◌}
use mathlib.Core.List.{List, [], ◌∷◌}
use native.Mathlib.Omega.{arith}
use queue_flow.Base.Tests.{◌==◌}

abbrev pub Text : Type 0
Text = List ℕ

abbrev pub codes : String → Text
codes String.[] = []
codes (String.◌∷◌ c s) = code c ∷ codes s

infix 50 ◌===◌
unfoldable pub ◌===◌ : Text → Text → Bool
[] === [] = true
[] === (y ∷ ys) = false
(x ∷ xs) === [] = false
(x ∷ xs) === (y ∷ ys) = (x == y) && (xs === ys)

pub ===_iff : (s t : Text) → ((s === t) ≡ true) ↔ (s ≡ t)
unfolding ◌===◌
===_iff [] [] = ground arith
===_iff [] (y ∷ ys) = ground arith
===_iff (x ∷ xs) [] = ground arith
===_iff (x ∷ xs) (y ∷ ys) = ground (arith, ===_iff xs ys)

pub ===_refl : (s : Text) → (s === s) ≡ true
===_refl s = (===_iff s s).1 refl
