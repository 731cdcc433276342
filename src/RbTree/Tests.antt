-- ===== src/RbTree/Tests.antt =====
-- red_black_tree/code.c at concrete trees, with each node eight bytes into its object.
use lkb.Common.{
  ◌>>=◌, ◌∙◌, ap, ◌≢◌, ℕ, ◌+◌, ◌*◌, ◌≡◌, refl, ℤ, pos, lt_int, some, none, Option, map, ok, arith,
  ◌==◌, if◌then◌else◌, List, [], ◌∷◌, ◌++◌, length, Bool, true, false,
}
use lkb.Kernel.Examples.{layout}
use lkb.RbTree.{RbNode, rb_node, Memory, search}
use lkb.RbTree.Shape.{Tree, leaf, bin, height, IsOrdered, find, inorder, Holds}
use lkb.RbTree.Search.{search-find, address}
use lkb.RbTree.Insert.{IsTree}
use lkb.RbTree.Start.{print_loop, start}
use lkb.RbTree.Whole.{count_up, start_whole}
use lkb.RbTree.Print.{IsSpine, NextToRight}
use mathlib.Core.List.Permᴰ.{swap}
use lkb.RbTree.Calls.Permute.{permute_lem}
use lkb.RbTree.Calls.{NonNull, Call, inserts, searches, answer_all, run_all, Ready}
use lkb.RbTree.Calls.Refine.{calls_refine}
use lkb.RbTree.Spine.{tower}

abbrev two_values : ℕ → Option ℤ
two_values a =
    if a == 100
    then some (pos 5)
    else if a == 200
    then some (pos 3)
    else if a == 300
    then some (pos 7)
    else none

abbrev two_nodes : ℕ → Option RbNode
two_nodes a =
    if a == 108
    then some (rb_node 208 0)
    else if a == 208
    then some (rb_node 0 0)
    else if a == 308
    then some (rb_node 0 0)
    else none

-- 5 at the root with 3 on its left; the object at 300 is not linked.
abbrev two : Memory
two = record { value = two_values; node = two_nodes; root = 108 }

abbrev two_tree : Tree
two_tree = bin (bin leaf 200 (pos 3) leaf) 100 (pos 5) leaf

two-Holds : Holds layout two two_tree
two-Holds = (refl, refl, (refl, refl, tt, tt), tt)

two-IsOrdered : IsOrdered two_tree
two-IsOrdered = omega arith

search-find_example : search layout 3 two (pos 3) ≡ ok (address (find (pos 3) two_tree))
search-find_example = search-find layout 3 two_tree two (pos 3) two-Holds refl (omega arith)

-- Insert 7, look for it, for 9, insert a second 5, and look for 5.
abbrev some_calls : List Call
some_calls = inserts 300 ∷ searches (pos 7) ∷ searches (pos 9) ∷ inserts 400 ∷ searches (pos 5) ∷ []

abbrev call_value : ℕ → ℤ
call_value t = if t == 400 then pos 5 else pos 7

-- The objects at 300 and 400 are not linked.
abbrev wide : Memory
wide = record two {
  value = λ a. if a == 400 then some (pos 5) else two_values a;
  node = λ a. if a == 408 then some (rb_node 0 0) else two_nodes a;
}

ready : Ready layout call_value wide two_tree (300 ∷ 400 ∷ [])
ready = (
  record { value = refl; links = refl },
  omega arith,
  (omega arith, (omega arith, tt, tt), tt),
  (omega arith, tt),
  (
    record { value = refl; links = refl },
    omega arith,
    (omega arith, (omega arith, tt, tt), tt),
    tt,
    tt,
  ),
)

wide-IsTree : IsTree layout wide two_tree
wide-IsTree = record {
  holds = (refl, refl, (refl, refl, tt, tt), tt);
  root = refl;
  ordered = two-IsOrdered;
}

wide-NonNull : NonNull two_tree
wide-NonNull = (omega arith, (omega arith, tt, tt), tt)

calls_refine_example :
    (z : Memory) × (y : Tree) × (run_all layout 5 some_calls wide
      ≡ ok (false ∷ true ∷ false ∷ true ∷ true ∷ [], z))
    × IsTree layout z y
    × (inorder y ≡ pos 3 ∷ pos 5 ∷ pos 7 ∷ [])
unfolding lt_int answer_all
calls_refine_example =
    calls_refine layout call_value 5 some_calls wide two_tree wide-IsTree wide-NonNull ready
      (omega arith)

-- The same two objects, the second one first.
ready_swapped : Ready layout call_value wide two_tree (400 ∷ 300 ∷ [])
ready_swapped = (
  record { value = refl; links = refl },
  omega arith,
  (omega arith, (omega arith, tt, tt), tt),
  (omega arith, tt),
  (
    record { value = refl; links = refl },
    omega arith,
    (omega arith, (omega arith, tt, tt), tt),
    tt,
    tt,
  ),
)

abbrev both : List Call
both = inserts 300 ∷ searches (pos 7) ∷ inserts 400 ∷ []

abbrev swapped : List Call
swapped = inserts 400 ∷ inserts 300 ∷ []

abbrev looked_for : List ℤ
looked_for = pos 7 ∷ pos 9 ∷ []

permute_lem_example :
    (bs : List Bool) × (bs' : List Bool) × (answer : List Bool) × (z : Memory) × (z' : Memory)
    × (run_all layout 5 (both ++ map searches looked_for) wide ≡ ok (bs ++ answer, z))
    × (run_all layout 5 (swapped ++ map searches looked_for) wide ≡ ok (bs' ++ answer, z'))
    × (length bs ≡ 3)
    × (length bs' ≡ 2)
    × (length answer ≡ 2)
permute_lem_example =
    permute_lem call_value layout 5 both swapped looked_for wide wide two_tree two_tree wide-IsTree
      wide-IsTree wide-NonNull wide-NonNull refl ready ready_swapped ∣ swap refl refl ∣₁
      (omega arith) (omega arith)

abbrev blank : Memory
blank = record { value = λ a. none; node = λ a. none; root = 0 }

-- `tree[i]` at 1000 + 32 * i.
abbrev item : ℕ → ℕ
item i = 1000 + 32 * i

item-injective : (i j : ℕ) → item i ≡ item j → i ≡ j
item-injective i j e = omega arith

-- `rb_next` goes right where it can, and else to what stands where the parent was never set.
abbrev right_of : Option RbNode → ℕ
right_of none = 0
right_of (some n) = if n.rb_right == 0 then 4096 else n.rb_right

abbrev to_right : Memory → ℕ → ℕ
to_right m p = right_of (m.node p)

right_of-some : (l r : ℕ) → r ≢ 0 → right_of (some (rb_node l r)) ≡ r
right_of-some l r h = ground arith

to_right-NextToRight : NextToRight to_right
to_right-NextToRight m p l r q e ne n = ap right_of e ∙ right_of-some l r ne

start_whole_example :
    (s' : Memory) × (start layout item (λ m. m.root) to_right 15 blank ≡ (
      print_loop layout (to_right s') 1 (to_right s' 1424) s' >>= λ rest.
      ok (1064, map (λ i. pos (i * 100)) (count_up 0 14) ++ rest, s')))
    × (to_right s' 1424 ≡ 0
        → start layout item (λ m. m.root) to_right 15 blank
          ≡ ok (1064, map (λ i. pos (i * 100)) (count_up 0 14), s'))
    × (s'.node 1424 ≡ some (rb_node 0 0))
    × IsTree layout s' (tower item 14)
    × IsSpine (tower item 14)
    × (height (tower item 14) ≡ 14)
start_whole_example =
    start_whole layout item (λ m. m.root) to_right 15 blank item-injective (λ m r e. refl)
      to_right-NextToRight refl (omega arith)
