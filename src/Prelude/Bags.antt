-- ===== src/Prelude/Bags.antt =====
-- Lists of numbers up to their order.
use Prim.Native.Nat.{ℕ, ◌+◌}
use mathlib.Core.Path.{◌≡◌, ap}
use mathlib.Core.List.{List, [], ◌∷◌, ◌++◌}
use mathlib.Core.Quot
use mathlib.Core.Quot.{Quot}
use native.Mathlib.Omega.{arith}
use native.Mathlib.Nat.{ℕ_set}
use roip.Prelude.Tests.{if◌then◌else◌, ◌==◌}

-- How often a number is in a list.
abbrev pub count : ℕ → List ℕ → ℕ
count n [] = 0
count n (x ∷ xs) = if x == n then count n xs + 1 else count n xs

pub count-append : (n : ℕ) (xs ys : List ℕ) → count n (xs ++ ys) ≡ count n xs + count n ys
count-append n [] ys = omega arith
count-append n (x ∷ xs) ys = let rest = count-append n xs ys in ground (arith, rest)

abbrev pub SameCounts : List ℕ → List ℕ → Type 0
SameCounts xs ys = (n : ℕ) → count n xs ≡ count n ys

abbrev pub Bag : Type 0
Bag = Quot SameCounts

abbrev pub bag : List ℕ → Bag
bag = Quot.mk

pub bag-SameCounts : {xs ys : List ℕ} → SameCounts xs ys → bag xs ≡ bag ys
bag-SameCounts h = Quot.sound h

-- Equal bags have the same counts.
pub SameCounts-bag : {xs ys : List ℕ} → bag xs ≡ bag ys → SameCounts xs ys
SameCounts-bag e n = ap (Quot.lift ℕ_set (count n) (λ xs ys h. h n)) e
