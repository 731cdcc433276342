-- ===== src/Common/Lists.antt =====
-- Lists measured and searched by native numbers.
use Prim.Native.Nat.{ℕ, suc, ◌+◌}
use mathlib.Core.Path.{◌≡◌, refl}
use mathlib.Core.Bool.{Bool, true, false, ◌||◌}
use mathlib.Core.List.{List, [], ◌∷◌, ◌++◌}
use native.Mathlib.Omega.{arith}
use lkb.Common.Tests.{◌==◌, if◌then◌else◌}

module _ {ℓ} {A : Type ℓ} where
  abbrev pub length : List A → ℕ
  length [] = 0
  length (x ∷ xs) = suc (length xs)

  pub length-append : (xs ys : List A) → length (xs ++ ys) ≡ length xs + length ys
  length-append [] ys = omega arith
  length-append (x ∷ xs) ys = omega (arith, length-append xs ys)

-- Whether a number stands in a list.
abbrev pub has : ℕ → List ℕ → Bool
has a [] = false
has a (x ∷ xs) = (a == x) || has a xs

-- The first occurrence of a number taken out.
abbrev pub erase : ℕ → List ℕ → List ℕ
erase a [] = []
erase a (x ∷ xs) = if x == a then xs else x ∷ erase a xs

-- No number stands twice.
abbrev pub Distinct : List ℕ → Type 0
Distinct [] = Unit
Distinct (x ∷ xs) = (has x xs ≡ false) × Distinct xs

pub erase-last : (a : ℕ) (xs : List ℕ) → has a xs ≡ false → erase a (xs ++ a ∷ []) ≡ xs
erase-last a [] h = ground arith
erase-last a (x ∷ xs) h = ground (arith, erase-last a xs)

pub has-append : (a : ℕ) (xs ys : List ℕ) → has a (xs ++ ys) ≡ (has a xs || has a ys)
has-append a [] ys = refl
has-append a (x ∷ xs) ys = ground (arith, has-append a xs ys)

pub Distinct-last : (a : ℕ) (xs : List ℕ) → Distinct xs → has a xs ≡ false → Distinct (xs ++ a ∷ [])
Distinct-last a [] d h = (refl, tt)
Distinct-last a (x ∷ xs) d h =
    (ground (arith, has-append x xs (a ∷ []), d.0), Distinct-last a xs d.1 (ground arith))

pub has-last : (a : ℕ) (xs : List ℕ) → has a (xs ++ a ∷ []) ≡ true
has-last a [] = ground arith
has-last a (x ∷ xs) = ground (arith, has-last a xs)

pub has-erase_other : (x n : ℕ) (xs : List ℕ) → has x xs ≡ false → has x (erase n xs) ≡ false
has-erase_other x n [] h = refl
has-erase_other x n (y ∷ xs) h = ground (arith, has-erase_other x n xs)

pub has-erase_self : (n : ℕ) (xs : List ℕ) → Distinct xs → has n (erase n xs) ≡ false
has-erase_self n [] d = refl
has-erase_self n (x ∷ xs) d = ground (arith, has-erase_self n xs, d.0)
