-- ===== src/RbTree/Shape.antt =====
-- The trees that the memory of red_black_tree/code.c stands for, and their order.
use lkb.Common.{
  ℕ, suc, ◌≡◌, ◌⊎◌, ℤ, lt_int, ◌<ℤ◌, if◌then◌else◌, Option, none, some, List, [], ◌∷◌, ◌++◌,
}
use Prim.Native.Nat.{max}
use lkb.Kernel.ContainerOf.{ContainerOf}
use lkb.RbTree.{rb_node, Memory}

-- A tree of `struct TREE` objects: the address and the `data` of each.
pub data Tree : Type 0 where
  leaf : Tree
  bin : Tree → ℕ → ℤ → Tree → Tree

abbrev pub height : Tree → ℕ
height leaf = 0
height (bin l t v r) = suc (max (height l) (height r))

-- `t` stands in the tree and holds `v`.
abbrev pub In : ℕ → ℤ → Tree → Type 0
In t v leaf = ⊥
In t v (bin l u d r) = In t v l ⊎ ((t ≡ u) × (v ≡ d)) ⊎ In t v r

abbrev pub Below : ℤ → Tree → Type 0
Below v leaf = Unit
Below v (bin l u d r) = (d <ℤ v) × Below v l × Below v r

abbrev pub Above : ℤ → Tree → Type 0
Above v leaf = Unit
Above v (bin l u d r) = (v <ℤ d) × Above v l × Above v r

-- A binary search tree with no value twice.
abbrev pub IsOrdered : Tree → Type 0
IsOrdered leaf = Unit
IsOrdered (bin l u d r) = Below d l × Above d r × IsOrdered l × IsOrdered r

-- The object with a value, found as in any binary search tree.
unfoldable pub find : ℤ → Tree → Option ℕ
find wanted leaf = none
find wanted (bin l t v r) =
    if lt_int wanted v then find wanted l else if lt_int v wanted then find wanted r else some t

-- A new object put at the leaf where its value belongs.
unfoldable pub add : ℕ → ℤ → Tree → Tree
add t v leaf = bin leaf t v leaf
add t v (bin l u d r) = if lt_int v d then bin (add t v l) u d r else bin l u d (add t v r)

-- The values in order.
abbrev pub inorder : Tree → List ℤ
inorder leaf = []
inorder (bin l t v r) = inorder l ++ v ∷ inorder r

module _ (c : ContainerOf) where
  open c use {member}

  -- The address of the root's `rb_node`.
  abbrev pub top : Tree → ℕ
  top leaf = 0
  top (bin l t v r) = member t

  -- Memory holds the tree: at each object its value, and links to its subtrees.
  abbrev pub Holds : Memory → Tree → Type 0
  Holds s leaf = Unit
  Holds s (bin l t v r) =
      (s.value t ≡ some v)
      × (s.node (member t) ≡ some (rb_node (top l) (top r)))
      × Holds s l
      × Holds s r
