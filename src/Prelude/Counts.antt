-- ===== src/Prelude/Counts.antt =====
-- How often a value stands in a list; a stable sort by a test, which keeps that.
use Prim.Native.Nat.{ℕ, zero, suc, ◌+◌, ◌≤◌, ◌<◌}
use mathlib.Core.Path.{◌≡◌, refl}
use mathlib.Core.Bool.{Bool, true, false}
use mathlib.Core.List.{List, [], ◌∷◌, ◌++◌}
use native.Mathlib.Omega.{arith}
use aether_web_lite.Prelude.Tests.{if◌then◌else◌, Key, ◌==◌}
use aether_web_lite.Prelude.Lists.{length, take, includes}

module _ {ℓ} {A : Type ℓ} ⦃eq : Key A⦄ where
  abbrev pub count : A → List A → ℕ
  count x [] = 0
  count x (y ∷ ys) = (if y == x then 1 else 0) + count x ys

  pub count-append : (x : A) (xs ys : List A) → count x (xs ++ ys) ≡ count x xs + count x ys
  count-append x [] ys = omega arith
  count-append x (y ∷ xs) ys = omega (arith, count-append x xs ys)

  pub count-take-le : (x : A) (n : ℕ) (xs : List A) → count x (take n xs) ≤ count x xs
  count-take-le x zero xs = omega arith
  count-take-le x (suc n) [] = omega arith
  count-take-le x (suc n) (y ∷ xs) = omega (arith, count-take-le x n xs)

  -- What is in a list is counted, and the other way round.
  pub count-includes : (x : A) (xs : List A) → includes x xs ≡ true → 0 < count x xs
  count-includes x [] h = ground arith
  count-includes x (y ∷ xs) h = ground (arith, count-includes x xs)

  pub count-absent : (x : A) (xs : List A) → includes x xs ≡ false → count x xs ≡ 0
  count-absent x [] h = refl
  count-absent x (y ∷ xs) h = ground (arith, count-absent x xs)

-- Array.prototype.sort, which is stable: `before a b` is `compare(a, b) <= 0`.
module _ {ℓ} {A : Type ℓ} (before : A → A → Bool) where
  abbrev pub insert : A → List A → List A
  insert x [] = x ∷ []
  insert x (y ∷ ys) = let rest = insert x ys in if before x y then x ∷ y ∷ ys else y ∷ rest

  abbrev pub sort : List A → List A
  sort [] = []
  sort (x ∷ xs) = insert x (sort xs)

  pub length-insert : (x : A) (xs : List A) → length (insert x xs) ≡ suc (length xs)
  length-insert x [] = refl
  length-insert x (y ∷ xs) = ground (arith, length-insert x xs)

  pub length-sort : (xs : List A) → length (sort xs) ≡ length xs
  length-sort [] = refl
  length-sort (x ∷ xs) = omega (arith, length-insert x (sort xs), length-sort xs)

module _ {ℓ} {A : Type ℓ} ⦃eq : Key A⦄ (before : A → A → Bool) where
  pub count-insert : (a x : A) (xs : List A) → count a (insert before x xs) ≡ count a (x ∷ xs)
  count-insert a x [] = refl
  count-insert a x (y ∷ xs) = ground (arith, count-insert a x xs)

  pub count-sort : (a : A) (xs : List A) → count a (sort before xs) ≡ count a xs
  count-sort a [] = refl
  count-sort a (x ∷ xs) = ground (arith, count-insert a x (sort before xs), count-sort a xs)
