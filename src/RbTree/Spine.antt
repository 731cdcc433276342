-- ===== src/RbTree/Spine.antt =====
-- What the loops of `start` of red_black_tree/code.c build: without `rb_insert_color` the tree of n
-- ascending values is a list of right children.
use lkb.Common.{
  ℕ, zero, suc, ◌*◌, ◌≡◌, ◌≢◌, ◌≤◌, ◌<◌, refl, ◌∙◌, sym, ℕ_discrete, ℤ, pos, lt_int, ◌<ℤ◌, ltℤ_ne,
  Bool-cases, lt_int→lt, le→lt_int-false, lt→lt_int, inl, inr, none, ok, arith,
}
use lkb.Kernel.ContainerOf.{ContainerOf}
use lkb.RbTree.{Memory}
use lkb.RbTree.Shape.{Tree, leaf, bin, height, In, Below, find, add}
use lkb.RbTree.Search.{Below-In}
use lkb.RbTree.Order.{add-Below}
use lkb.RbTree.Place.{In-value, member-ne}
use lkb.RbTree.Insert.{IsTree, IsFresh, insert_new}
use lkb.RbTree.Print.{IsSpine}
use lkb.RbTree.Start.{fill, insert_all}

-- The tree after n rounds of the second loop.
unfoldable pub tower : (ℕ → ℕ) → ℕ → Tree
tower item zero = leaf
tower item (suc n) = add (item n) (pos (n * 100)) (tower item n)

Below-weaken : (a b : ℤ) (x : Tree) → Below a x → a <ℤ b → Below b x
Below-weaken a b leaf h lt = tt
Below-weaken a b (bin l t v r) h lt =
    (omega arith, Below-weaken a b l h.1 lt, Below-weaken a b r h.2 lt)

tower-Below : (item : ℕ → ℕ) (n : ℕ) → Below (pos (n * 100)) (tower item n)
unfolding tower
tower-Below item zero = tt
tower-Below item (suc n) =
    add-Below (item n) (pos (n * 100)) (pos (suc n * 100)) (tower item n)
      (Below-weaken (pos (n * 100)) (pos (suc n * 100)) (tower item n) (tower-Below item n)
        (omega arith))
      (omega arith)

add-IsSpine :
    (t : ℕ) (v : ℤ) (x : Tree)
    → Below v x
    → IsSpine x
    → IsSpine (add t v x) × (height (add t v x) ≡ suc (height x))
unfolding add
add-IsSpine t v leaf b h = ((refl, tt), refl)
add-IsSpine t v (bin l u d r) b h =
    let (spine, high) = add-IsSpine t v r b.2 h.1 in
    elim (Bool-cases (lt_int v d)) [
      | inl low ↦ absurd (omega (arith, lt_int→lt v d low, b.0))
      | inr up ↦ rw (up, h.0) ((refl, spine), omega (arith, high))
    ]

pub tower-IsSpine : (item : ℕ → ℕ) (n : ℕ) → IsSpine (tower item n) × (height (tower item n) ≡ n)
unfolding tower
tower-IsSpine item zero = (tt, refl)
tower-IsSpine item (suc n) =
    let (spine, high) = tower-IsSpine item n in
    let (grown, higher) =
      add-IsSpine (item n) (pos (n * 100)) (tower item n) (tower-Below item n) spine in
    (grown, omega arith)

-- A value above all others is not in the tree.
find-none : (v : ℤ) (x : Tree) → Below v x → find v x ≡ none
unfolding find
find-none v leaf b = refl
find-none v (bin l u d r) b =
    rw (le→lt_int-false v d (omega (arith, b.0)), lt→lt_int d v b.0) (find-none v r b.2)

module _ (c : ContainerOf) (item : ℕ → ℕ) where
  open c use {member}

  abbrev Fresh : Memory → ℕ → Type 0
  Fresh s j = IsFresh c s (item j) (pos (j * 100))

  fill-root : (n : ℕ) (s : Memory) → (fill c item n s).root ≡ s.root
  unfolding fill
  fill-root zero s = refl
  fill-root (suc n) s = fill-root n s

  fill-Fresh :
      ((i j : ℕ) → item i ≡ item j → i ≡ j)
      → (n : ℕ) (s : Memory) (j : ℕ) → j < n
      → Fresh (fill c item n s) j
  unfolding fill
  fill-Fresh apart zero s j lt = elim lt [ ]
  fill-Fresh apart (suc n) s j lt = elim (ℕ_discrete j n) [
    | yes e ↦ record { value = ground arith; links = ground arith }
    | no ne ↦
        let old = fill-Fresh apart n s j (omega arith) in
        let value = old.value in
        let links = old.links in record { value = ground (arith, apart j n); links = ground arith }
  ]

  -- After i rounds of the second loop: the tree so far, and the objects that are left.
  record Built (n i : ℕ) (s s' : Memory) : Type 0 where
    tree : IsTree c s' (tower item i)
    fresh : (j : ℕ) → i ≤ j → j < n → Fresh s' j

  -- An object of a later round stays fresh.
  Fresh-later :
      (n i : ℕ) (s s₁ s₂ : Memory)
      → Built n i s s₁
      → ((u : ℕ) → s₂.value u ≡ s₁.value u)
      → ((a : ℕ) → ((p : ℕ) (k : ℤ) → In p k (tower item i) → a ≢ member p) → s₂.node a ≡ s₁.node a)
      → (j : ℕ) → suc i ≤ j
      → j < n
      → Fresh s₂ j
  Fresh-later n i s s₁ s₂ built same spare j above below = record {
    value = same (item j) ∙ old.value;
    links = spare (member (item j)) apart ∙ old.links;
  }
    where
      old : Fresh s₁ j
      old = built.fresh j (omega arith) below

      apart : (p : ℕ) (k : ℤ) → In p k (tower item i) → member (item j) ≢ member p
      apart p k here e =
          let low = Below-In k (pos (i * 100)) p (tower item i) (tower-Below item i) here in
          member-ne c s₁ p (item j) (In-value c s₁ (tower item i) built.tree.holds here) old.value
            (ltℤ_ne k (pos (j * 100)) (omega arith)) (sym e)

  insert_all-Built :
      (fuel n : ℕ) (s : Memory)
      → s.root ≡ 0
      → ((j : ℕ) → j < n → Fresh s j)
      → (i : ℕ) → i ≤ n
      → i ≤ fuel
      → (s' : Memory) × (insert_all c item fuel i s ≡ ok s') × Built n i s s'
  unfolding insert_all tower
  insert_all-Built fuel n s empty fresh zero le enough = (
    s,
    refl,
    record { tree = record { holds = tt; root = empty; ordered = tt }; fresh = λ j a b. fresh j b },
  )
  insert_all-Built fuel n s empty fresh (suc i) le enough =
      let (s₁, run, built) = insert_all-Built fuel n s empty fresh i (omega arith) (omega arith) in
      let new = find-none (pos (i * 100)) (tower item i) (tower-Below item i) in
      let (s₂, put, tree, same, spare) =
        insert_new c (item i) (pos (i * 100)) fuel (tower item i) built.tree
          (built.fresh i (omega arith) (omega arith)) new
          (omega (arith, (tower-IsSpine item i).1)) in
      (s₂, rw (run, put), record { tree = tree; fresh = Fresh-later n i s s₁ s₂ built same spare })

  -- For distinct addresses and more fuel than elements, the two loops of `start`, run for n
  -- elements from an empty root, build an ordered tree of n objects in which no object has a left
  -- child: its height is n.
  pub start_degenerates :
      ((i j : ℕ) → item i ≡ item j → i ≡ j)
      → (fuel n : ℕ) (s : Memory) → s.root ≡ 0
      → n ≤ fuel
      → (s' : Memory) × (insert_all c item fuel n (fill c item n s) ≡ ok s')
        × IsTree c s' (tower item n)
        × IsSpine (tower item n)
        × (height (tower item n) ≡ n)
  start_degenerates apart fuel n s empty enough =
      let (s', run, built) =
        insert_all-Built fuel n (fill c item n s) (fill-root n s ∙ empty) (fill-Fresh apart n s) n
          (omega arith) enough in
      let (spine, high) = tower-IsSpine item n in (s', run, built.tree, spine, high)
