-- ===== src/RbTree/Insert.antt =====
-- `insert` of red_black_tree/code.c, whole: a binary search tree in memory gains the new node.
use lkb.Common.{ℕ, suc, ◌≡◌, ◌≢◌, ◌<◌, refl, ◌∙◌, sym, ap, ℤ, some, none, ok, arith}
use lkb.Kernel.ContainerOf.{ContainerOf}
use lkb.RbTree.{rb_node, Memory, Walk, walk, search, descend, attach, insert}
use lkb.RbTree.Shape.{Tree, leaf, bin, height, In, IsOrdered, find, add, top, Holds}
use lkb.RbTree.Search.{address, search-find}
use lkb.RbTree.Order.{add-IsOrdered, height-add, find-add_self, find-add_ne}
use lkb.RbTree.Descend.{top-add, descend-find, descend-Placed}

insert-attach :
    (c : ContainerOf) (s : Memory) (t fuel : ℕ) {p : ℕ} (w : Walk) (s' : Memory)
    → s.root ≡ p
    → p ≢ 0
    → descend c fuel (walk 0 0 p) t s ≡ ok w
    → w.tmp ≡ 0
    → attach c w t s ≡ ok s'
    → insert c fuel t s ≡ ok (0, s')
unfolding insert
insert-attach c s t fuel w s' e ne run out linked = ground arith

module _ (c : ContainerOf) where
  open c use {member, member-ne_null}

  -- The memory holds the tree from `root->rb_node` on, and the tree is ordered.
  pub record IsTree (s : Memory) (x : Tree) : Type 0 where
    pub holds : Holds c s x
    pub root : s.root ≡ top c x
    pub ordered : IsOrdered x

  -- A `struct TREE` that is not linked: its value is set and its links are NULL.
  pub record IsFresh (s : Memory) (t : ℕ) (v : ℤ) : Type 0 where
    pub value : s.value t ≡ some v
    pub links : s.node (member t) ≡ some (rb_node 0 0)

  module _ {s : Memory} (t : ℕ) (v : ℤ) where
    -- With more rounds of fuel than the tree is high, `insert` of a node whose value is not in the
    -- tree returns 0, the memory then holds the ordered tree with the node added at its leaf, no
    -- value is changed, and of the nodes only some that stood in the tree.
    pub insert_new :
        (fuel : ℕ) (x : Tree)
        → IsTree s x
        → IsFresh s t v
        → find v x ≡ none
        → height x < fuel
        → (s' : Memory) × (insert c fuel t s ≡ ok (0, s'))
          × IsTree s' (add t v x)
          × ((u : ℕ) → s'.value u ≡ s.value u)
          × ((a : ℕ) → ((p : ℕ) (k : ℤ) → In p k x → a ≢ member p) → s'.node a ≡ s.node a)
    unfolding insert add
    insert_new fuel leaf tree fresh new enough = (
      record s { root = member t },
      rw (tree.root),
      record {
        holds = (fresh.value, fresh.links, tt, tt);
        root = refl;
        ordered = (tt, tt, tt, tt);
      },
      λ u. refl,
      λ a apart. refl,
    )
    insert_new fuel (bin l u d r) tree fresh new enough =
        let (w, s', run, out, linked, f) =
          descend-Placed c s t v fresh.value fresh.links fuel 0 0 l u d r tree.holds tree.ordered
            new enough in
        (
          s',
          insert-attach c s t fuel w s' tree.root (member-ne_null u) run out linked,
          record {
            holds = f.holds;
            root = f.root ∙ tree.root ∙ sym (top-add c t v l u d r);
            ordered = add-IsOrdered t v (bin l u d r) tree.ordered new;
          },
          f.same,
          λ a apart. f.spare a (apart f.p f.key f.stood),
        )

    -- Where the value is in the tree, `insert` returns 1 and leaves the memory as it is.
    pub insert_present :
        (fuel : ℕ) (x : Tree) {u : ℕ}
        → IsTree s x
        → s.value t ≡ some v
        → find v x ≡ some u
        → height x < fuel
        → insert c fuel t s ≡ ok (1, s)
    unfolding insert find
    insert_present fuel leaf tree fresh old enough = cc
    insert_present fuel (bin l a d r) tree value old enough =
        let (w, run, stop) =
          descend-find c s t v value fuel 0 0 (bin l a d r) tree.holds old enough in
        ground (arith, member-ne_null a)

    -- Over an ordered tree in memory, for an unlinked node whose value is not in the tree, and with
    -- at least two more rounds than the tree is high: `insert` returns 0, after it a search for the
    -- value returns the node, and a search for any other value returns what it returned before.
    search-insert :
        (fuel : ℕ) (x : Tree)
        → IsTree s x
        → IsFresh s t v
        → find v x ≡ none
        → suc (height x) < fuel
        → (s' : Memory) × (insert c fuel t s ≡ ok (0, s'))
          × (search c fuel s' v ≡ ok t)
          × ((w : ℤ) → w ≢ v → search c fuel s' w ≡ search c fuel s w)
    search-insert fuel x tree fresh new enough =
        let (s', run, grown, same, spare) = insert_new fuel x tree fresh new (omega arith) in
        let finds = λ (w : ℤ).
          search-find c fuel (add t v x) s' w grown.holds grown.root
            (omega (arith, height-add t v x)) in
        (
          s',
          run,
          finds v ∙ ap (λ o. ok (address o)) (find-add_self t v x new),
          λ w ne.
              finds w
              ∙ ap (λ o. ok (address o)) (find-add_ne t v w x ne)
              ∙ sym (search-find c fuel x s w tree.holds tree.root (omega arith)),
        )
