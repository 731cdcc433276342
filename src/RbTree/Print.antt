-- ===== src/RbTree/Print.antt =====
-- `print` of red_black_tree/code.c on a tree in which no object has a left child. `insert` sets no
-- parent, so of `rb_next` only what it does at an object with a right child is known.
use lkb.Common.{
  ℕ, suc, ◌≡◌, ◌≢◌, refl, ◌∙◌, ap, ◌==◌, false, ℤ, List, ◌∷◌, ◌++◌, some, Run, ok, fault,
  out_of_fuel, ◌>>=◌, arith,
}
use lkb.Kernel.ContainerOf.{ContainerOf}
use lkb.RbTree.{Memory, rb_node}
use lkb.RbTree.Shape.{Tree, leaf, bin, inorder, Holds, top}
use lkb.RbTree.Start.{print_loop}

-- No object has a left child.
abbrev pub IsSpine : Tree → Type 0
IsSpine leaf = Unit
IsSpine (bin l t v r) = (l ≡ leaf) × IsSpine r

-- j rounds and one for each step to the right.
abbrev pub rounds : Tree → ℕ → ℕ
rounds leaf j = j
rounds (bin l t v r) j = suc (rounds r j)

-- The object where the steps to the right end.
abbrev pub last : Tree → ℕ
last leaf = 0
last (bin l t v leaf) = t
last (bin l t v (bin l' u d r)) = last (bin l' u d r)

-- `rb_first` of a root without a left child is the root.
abbrev pub FirstOfRoot : (Memory → ℕ) → Type 0
FirstOfRoot rb_first =
    (m : Memory) (r : ℕ) → m.node m.root ≡ some (rb_node 0 r) → rb_first m ≡ m.root

-- `rb_next` of an object whose right child has no left child is that child.
abbrev pub NextToRight : (Memory → ℕ → ℕ) → Type 0
NextToRight rb_next =
    (m : Memory) (p l r q : ℕ)
    → m.node p ≡ some (rb_node l r)
    → r ≢ 0
    → m.node r ≡ some (rb_node 0 q)
    → rb_next m p ≡ r

cons_all :
    (m : Run (List ℤ)) (v : ℤ) (xs : List ℤ)
    → ((m >>= λ rest. ok (xs ++ rest)) >>= λ rest. ok (v ∷ rest))
      ≡ (m >>= λ rest. ok (v ∷ (xs ++ rest)))
cons_all (ok ys) v xs = refl
cons_all fault v xs = refl
cons_all out_of_fuel v xs = refl

module _ (c : ContainerOf) where
  open c use {member, container_of, container_of-member, member-ne_null}

  -- One round of the loop.
  print_loop-member :
      (rb_next : ℕ → ℕ) (j t : ℕ) (v : ℤ) (s : Memory)
      → s.value t ≡ some v
      → print_loop c rb_next (suc j) (member t) s
        ≡ (print_loop c rb_next j (rb_next (member t)) s >>= λ rest. ok (v ∷ rest))
  unfolding print_loop
  print_loop-member rb_next j t v s held =
      let some_node : (member t == 0) ≡ false = ground (arith, member-ne_null t) in
      rw (some_node, container_of-member t, held) refl

  pub print_spine :
      (rb_next : Memory → ℕ → ℕ) (j : ℕ) (s : Memory) (x : Tree)
      → NextToRight rb_next
      → IsSpine x
      → Holds c s x
      → x ≢ leaf
      → print_loop c (rb_next s) (rounds x j) (top c x) s ≡ (
          print_loop c (rb_next s) j (rb_next s (member (last x))) s >>= λ rest.
          ok (inorder x ++ rest))
  print_spine rb_next j s leaf right spine h some_tree = absurd (some_tree refl)
  print_spine rb_next j s (bin l t v leaf) right spine h some_tree =
      rw spine.0 (print_loop-member (rb_next s) j t v s h.0)
  print_spine rb_next j s (bin l t v (bin l' u d r)) right spine h some_tree =
      let step : rb_next s (member t) ≡ member u =
        right s (member t) (top c l) (member u) (top c r) h.1 (member-ne_null u)
          (h.3.1 ∙ ap (λ x. some (rb_node (top c x) (top c r))) spine.1.0) in
      let rest = print_spine rb_next j s (bin l' u d r) right spine.1 h.3 (λ e. cc) in
      rw spine.0 (
        print_loop-member (rb_next s) (rounds (bin l' u d r) j) t v s h.0
        ∙ rw step (
            ap (λ m. m >>= λ rest. ok (v ∷ rest)) rest
            ∙ cons_all (print_loop c (rb_next s) j (rb_next s (member (last (bin l' u d r)))) s) v
                (inorder (bin l' u d r))))

  pub last-links :
      (s : Memory) (x : Tree)
      → IsSpine x
      → Holds c s x
      → x ≢ leaf
      → s.node (member (last x)) ≡ some (rb_node 0 0)
  last-links s leaf spine h some_tree = absurd (some_tree refl)
  last-links s (bin l t v leaf) spine h some_tree =
      h.1 ∙ ap (λ x. some (rb_node (top c x) 0)) spine.0
  last-links s (bin l t v (bin l' u d r)) spine h some_tree =
      last-links s (bin l' u d r) spine.1 h.3 (λ e. cc)
