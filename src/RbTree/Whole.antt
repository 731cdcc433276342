-- ===== src/RbTree/Whole.antt =====
-- `start` of red_black_tree/code.c, whole.
use lkb.Common.{
  ap₂, ◌-◌, ◌≢◌, sym, ℤ, ◌++◌, Run, fault, out_of_fuel, ◌>>=◌, lt_int, ℕ, zero, suc, ◌*◌, ◌≡◌, ◌<◌,
  refl, ◌∙◌, ap, pos, List, [], ◌∷◌, map, some, ok, arith,
}
use mathlib.Core.Path.{subst}
use lkb.Kernel.ContainerOf.{ContainerOf}
use lkb.RbTree.{Memory, rb_node}
use lkb.RbTree.Shape.{Tree, leaf, bin, Holds, top, find, add, inorder}
use lkb.RbTree.Search.{address, search-find}
use lkb.RbTree.Insert.{IsTree}
use lkb.RbTree.Print.{IsSpine, rounds, last, FirstOfRoot, NextToRight, print_spine, last-links}
use lkb.RbTree.Start.{element, print_loop, start}
use lkb.RbTree.Shape.{height}
use lkb.RbTree.Spine.{tower, start_degenerates}

-- The first n numbers from k on.
abbrev pub count_up : (k n : ℕ) → List ℕ
count_up k zero = []
count_up k (suc n) = k ∷ count_up (suc k) n

-- The tree of `start` in order, what a search for 200 finds there, and where it ends.
tower-inorder :
    (item : ℕ → ℕ)
    → (inorder (tower item element) ≡ map (λ i. pos (i * 100)) (count_up 0 element))
      × (find (pos 200) (tower item element) ≡ some (item 2))
      × (last (tower item element) ≡ item 13)
      × (tower item element ≢ leaf)
unfolding tower add find lt_int
tower-inorder item = (refl, refl, refl, λ e. cc)

module _ (c : ContainerOf) (item : ℕ → ℕ) where
  open c use {member}

  tower-top : top c (tower item element) ≡ member (item 0)
  unfolding tower add lt_int
  tower-top = refl

  tower-rounds : (fuel : ℕ) → element < fuel → rounds (tower item element) (fuel - element) ≡ fuel
  unfolding tower add lt_int
  tower-rounds fuel lt = omega arith

  root-links :
      (s : Memory) (x : Tree)
      → IsSpine x
      → Holds c s x
      → x ≢ leaf
      → (r : ℕ) × (s.node (top c x) ≡ some (rb_node 0 r))
  root-links s leaf spine h some_tree = absurd (some_tree refl)
  root-links s (bin l t v r) spine h some_tree =
      (top c r, h.1 ∙ ap (λ y. some (rb_node (top c y) (top c r))) spine.0)

  abbrev outcome : ℕ → Memory → List ℤ → ℕ × List ℤ × Memory
  outcome t s printed = (t, printed, s)

  bind-ok :
      (m : Run (List ℤ)) (f : List ℤ → List ℤ) (t : ℕ) (s : Memory)
      → ((m >>= λ rest. ok (f rest)) >>= λ printed. ok (outcome t s printed))
        ≡ (m >>= λ rest. ok (outcome t s (f rest)))
  bind-ok (ok xs) f t s = refl
  bind-ok fault f t s = refl
  bind-ok out_of_fuel f t s = refl

  print_loop-null :
      (rb_next : ℕ → ℕ) (fuel p : ℕ) (s : Memory)
      → 0 < fuel
      → p ≡ 0
      → print_loop c rb_next fuel p s ≡ ok []
  unfolding print_loop
  print_loop-null rb_next zero p s lt e = elim lt [ ]
  print_loop-null rb_next (suc k) p s lt e = rw e refl

  -- For distinct addresses and an empty root, with more rounds of fuel than elements, where
  -- `rb_first` of a root without a left child is the root and `rb_next` of an object whose right
  -- child has no left child is that child: `start` builds an ordered tree of all its objects in
  -- which no object has a left child, as high as it has objects. Its search for 200 returns the
  -- third object. It prints 0, 100, …, 1300, and goes on as `print` goes on from what `rb_next`
  -- gives for the last object, which has no child; where that is NULL, `start` ends and has printed
  -- these.
  pub start_whole :
      (rb_first : Memory → ℕ) (rb_next : Memory → ℕ → ℕ) (fuel : ℕ) (s : Memory)
      → ((i j : ℕ) → item i ≡ item j → i ≡ j)
      → FirstOfRoot rb_first
      → NextToRight rb_next
      → s.root ≡ 0
      → element < fuel
      → (s' : Memory) × (start c item rb_first rb_next fuel s ≡ (
          print_loop c (rb_next s') (fuel - element) (rb_next s' (member (item 13))) s' >>= λ rest.
          ok (item 2, map (λ i. pos (i * 100)) (count_up 0 element) ++ rest, s')))
        × (rb_next s' (member (item 13)) ≡ 0
            → start c item rb_first rb_next fuel s
              ≡ ok (item 2, map (λ i. pos (i * 100)) (count_up 0 element), s'))
        × (s'.node (member (item 13)) ≡ some (rb_node 0 0))
        × IsTree c s' (tower item element)
        × IsSpine (tower item element)
        × (height (tower item element) ≡ element)
  unfolding start
  start_whole rb_first rb_next fuel s apart first right empty enough =
      let (s', built, tree, spine, high) =
        start_degenerates c item apart fuel element s empty (omega arith) in
      let (sorted, third, end, some_tree) = tower-inorder item in
      let x = tower item element in
      let found =
        search-find c fuel x s' (pos 200) tree.holds tree.root (omega arith)
        ∙ ap (λ o. ok (address o)) third in
      let (r, links) = root-links s' x spine tree.holds some_tree in
      let at : rb_first s' ≡ top c x = first s' r (ap s'.node tree.root ∙ links) ∙ tree.root in
      let printed = print_spine c rb_next (fuel - element) s' x right spine tree.holds some_tree in
      let goes_on = (λ (q : ℕ) (vs : List ℤ).
        print_loop c (rb_next s') (fuel - element) (rb_next s' (member q)) s' >>= λ rest.
        ok (vs ++ rest)) in
      let loop =
        subst (λ n. print_loop c (rb_next s') n (top c x) s' ≡ goes_on (last x) (inorder x))
          (tower-rounds fuel enough) printed
        ∙ ap₂ goes_on end sorted in
      let values = map (λ i. pos (i * 100)) (count_up 0 element) in
      let rest = print_loop c (rb_next s') (fuel - element) (rb_next s' (member (item 13))) s' in
      let whole : start c item rb_first rb_next fuel s
          ≡ (rest >>= λ ys. ok (outcome (item 2) s' (values ++ ys))) =
        rw (built, found, at, loop) (bind-ok rest (λ ys. values ++ ys) (item 2) s') in
      (
        s',
        whole,
        λ null.
            whole
            ∙ ap (λ m. m >>= λ ys. ok (outcome (item 2) s' (values ++ ys)))
                (print_loop-null (rb_next s') (fuel - element) _ s' (omega arith) null),
        ap (λ t. s'.node (member t)) (sym end) ∙ last-links c s' x spine tree.holds some_tree,
        tree,
        spine,
        high,
      )
