-- ===== src/RbTree/Range.antt =====
-- The values of a tree in order, below or above a bound.
use lkb.Common.{ℤ, ◌<ℤ◌, List, [], ◌∷◌, ◌++◌}
use lkb.RbTree.Shape.{Tree, leaf, bin, Below, Above, inorder}

abbrev pub AllBelow : ℤ → List ℤ → Type 0
AllBelow b [] = Unit
AllBelow b (x ∷ xs) = (x <ℤ b) × AllBelow b xs

abbrev pub AllAbove : ℤ → List ℤ → Type 0
AllAbove b [] = Unit
AllAbove b (x ∷ xs) = (b <ℤ x) × AllAbove b xs

AllBelow-append : (b : ℤ) (xs ys : List ℤ) → AllBelow b xs → AllBelow b ys → AllBelow b (xs ++ ys)
AllBelow-append b [] ys h k = k
AllBelow-append b (x ∷ xs) ys h k = (h.0, AllBelow-append b xs ys h.1 k)

AllAbove-append : (b : ℤ) (xs ys : List ℤ) → AllAbove b xs → AllAbove b ys → AllAbove b (xs ++ ys)
AllAbove-append b [] ys h k = k
AllAbove-append b (x ∷ xs) ys h k = (h.0, AllAbove-append b xs ys h.1 k)

pub Below-inorder : (b : ℤ) (x : Tree) → Below b x → AllBelow b (inorder x)
Below-inorder b leaf h = tt
Below-inorder b (bin l t v r) h =
    AllBelow-append b (inorder l) _ (Below-inorder b l h.1) (h.0, Below-inorder b r h.2)

pub Above-inorder : (b : ℤ) (x : Tree) → Above b x → AllAbove b (inorder x)
Above-inorder b leaf h = tt
Above-inorder b (bin l t v r) h =
    AllAbove-append b (inorder l) _ (Above-inorder b l h.1) (h.0, Above-inorder b r h.2)
