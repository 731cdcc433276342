-- ===== src/RbTree/Calls/Refine.antt =====
-- The calls of `insert` and `search` of red_black_tree/code.c, against a sorted list.
use lkb.Common.{
  ℕ, ◌+◌, ◌≡◌, ◌<◌, refl, ◌∙◌, ap, sym, ℤ, lt_int, Bool, not, Bool-cases, ◌⊎◌, inl, inr, ◌==◌, List,
  [], ◌∷◌, Option, none, some, ok, length, arith,
}
use lkb.Kernel.ContainerOf.{ContainerOf}
use lkb.RbTree.{Memory, search, insert}
use lkb.RbTree.Shape.{Tree, leaf, bin, height, IsOrdered, find, add, inorder}
use lkb.RbTree.Search.{address, search-find}
use lkb.RbTree.Order.{height-add}
use lkb.RbTree.Insert.{IsTree, insert_new, insert_present}
use lkb.RbTree.Sorted.{insert_sorted, contains, found, contains-find, put, inorder-put}
use lkb.RbTree.Calls.{
  Call, inserts, searches, answer_all, inserted, run_all, NonNull, NonNull-add, Ready, Ready-add,
}

-- `search` finds an object exactly where `find` does.
address-found : (v : ℤ) (x : Tree) → NonNull x → not (address (find v x) == 0) ≡ found (find v x)
unfolding find
address-found v leaf h = refl
address-found v (bin l t d r) h = elim (Bool-cases (lt_int v d)) [
  | inl low ↦ rw low (address-found v l h.1)
  | inr high ↦ elim (Bool-cases (lt_int d v)) [
    | inl up ↦ rw (high, up) (address-found v r h.2)
    | inr same ↦ rw (high, same) (ground arith)
  ]
]

find-cases : (q : Option ℕ) → (q ≡ none) ⊎ ((u : ℕ) × (q ≡ some u))
find-cases none = inl refl
find-cases (some u) = inr (u, refl)

module _ (c : ContainerOf) (value : ℕ → ℤ) where
  run_all-inserts :
      (fuel t : ℕ) (cs : List Call) (s : Memory) {r : ℕ} {s' : Memory} {bs : List Bool} {z : Memory}
      → insert c fuel t s ≡ ok (r, s')
      → run_all c fuel cs s' ≡ ok (bs, z)
      → run_all c fuel (inserts t ∷ cs) s ≡ ok ((r == 1) ∷ bs, z)
  unfolding run_all
  run_all-inserts fuel t cs s run rest = rw (run, rest) refl

  run_all-searches :
      (fuel : ℕ) (v : ℤ) (cs : List Call) (s : Memory) {r : ℕ} {bs : List Bool} {z : Memory}
      → search c fuel s v ≡ ok r
      → run_all c fuel cs s ≡ ok (bs, z)
      → run_all c fuel (searches v ∷ cs) s ≡ ok (not (r == 0) ∷ bs, z)
  unfolding run_all
  run_all-searches fuel v cs s run rest = rw (run, rest) refl

  -- What the calls leave: the answers, a tree in memory, and its values in order.
  abbrev pub Refines : ℕ → List Call → Memory → List ℤ → Type 0
  Refines fuel cs s xs =
      (z : Memory) × (y : Tree) × (run_all c fuel cs s ≡ ok ((answer_all value cs xs).0, z))
      × IsTree c z y
      × (inorder y ≡ (answer_all value cs xs).1)

  -- What a call of `insert` returns, by what the search before it finds.
  abbrev pub result : Option ℕ → ℕ
  result none = 0
  result (some u) = 1

  result-found : (q : Option ℕ) → (result q == 1) ≡ found q
  result-found none = refl
  result-found (some u) = refl

  calls_refine-after :
      (fuel t : ℕ) (cs : List Call) (s : Memory) (x : Tree) (s' : Memory) (y : Tree) {q : Option ℕ}
      → IsOrdered x
      → find (value t) x ≡ q
      → insert c fuel t s ≡ ok (result q, s')
      → put q t (value t) x ≡ y
      → Refines fuel cs s' (inorder y)
      → Refines fuel (inserts t ∷ cs) s (inorder x)
  unfolding answer_all
  calls_refine-after fuel t cs s x s' y {q} ordered e run grown (z, w, rest, tree, same) =
      let sorted : inorder y ≡ insert_sorted (value t) (inorder x) =
        sym (ap inorder grown)
        ∙ ap (λ o. inorder (put o t (value t) x)) (sym e)
        ∙ inorder-put t (value t) x ordered in
      let told : (result q == 1) ≡ contains (value t) (inorder x) =
        result-found q ∙ ap found (sym e) ∙ sym (contains-find (value t) x ordered) in
      (
        z,
        w,
        run_all-inserts fuel t cs s run rest
            ∙ ap (λ b. ok (b ∷ (answer_all value cs (inorder y)).0, z)) told
            ∙ ap (λ xs. ok (contains (value t) (inorder x) ∷ (answer_all value cs xs).0, z)) sorted,
        tree,
        same ∙ ap (λ xs. (answer_all value cs xs).1) sorted,
      )

  -- Over an ordered tree in memory with no object at NULL, any calls of `insert` and `search` end
  -- when the inserted objects are apart, not at NULL, unlinked, not in the tree and hold the values
  -- given, and the fuel exceeds the tree's height and the number of inserted objects together. Each
  -- call answers as it does on the sorted list of the tree's values, and after them the memory
  -- holds an ordered tree whose values in order are the list that those calls leave.
  pub calls_refine :
      (fuel : ℕ) (cs : List Call) (s : Memory) (x : Tree)
      → IsTree c s x
      → NonNull x
      → Ready c value s x (inserted cs)
      → height x + length (inserted cs) < fuel
      → Refines fuel cs s (inorder x)
  unfolding answer_all run_all
  calls_refine fuel [] s x tree solid ready enough = (s, x, refl, tree, refl)
  calls_refine fuel (searches v ∷ cs) s x tree solid ready enough =
      let (z, y, run, grown, same) = calls_refine fuel cs s x tree solid ready enough in
      (
        z,
        y,
        run_all-searches fuel v cs s (search-find c fuel x s v tree.holds tree.root (omega arith))
              run
            ∙ ap (λ b. ok (b ∷ (answer_all value cs (inorder x)).0, z))
                (address-found v x solid ∙ sym (contains-find v x tree.ordered)),
        grown,
        same,
      )
  calls_refine fuel (inserts t ∷ cs) s x tree solid ready enough =
      elim (find-cases (find (value t) x)) [
        | inl absent ↦
            let (s', run, built, same, spare) =
              insert_new c t (value t) fuel x tree (ready.0) absent (omega arith) in
            let high = height-add t (value t) x in
            calls_refine-after fuel t cs s x s' (add t (value t) x) tree.ordered absent run refl (
              calls_refine fuel cs s' (add t (value t) x) built
                (NonNull-add t (value t) x ready.1 solid)
                (Ready-add c value s s' t (value t) x (inserted cs) same spare ready.3 ready.4)
                (omega arith))
        | inr (u, present) ↦
            let run =
              insert_present c t (value t) fuel x tree (ready.0).value present (omega arith) in
            calls_refine-after fuel t cs s x s x tree.ordered present run refl
              (calls_refine fuel cs s x tree solid ready.4 (omega arith))
      ]
