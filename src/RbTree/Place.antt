-- ===== src/RbTree/Place.antt =====
-- The end of `insert` of red_black_tree/code.c: one node is written, and memory holds the new tree.
use lkb.Common.{
  ℕ, ◌≡◌, ◌≢◌, inl, inr, refl, sym, ◌∙◌, ℤ, lt_int, lt_int→lt, ltℤ_ne, ◌<ℤ◌, some, arith, true,
  false,
}
use lkb.Kernel.ContainerOf.{ContainerOf}
use lkb.RbTree.{RbNode, rb_node, Memory, set_node}
use lkb.RbTree.Shape.{Tree, leaf, bin, In, IsOrdered, add, top, Holds}
use lkb.RbTree.Search.{Below-In, Above-In}

module _ (c : ContainerOf) where
  open c use {member, container_of, container_of-member, member-ne_null}

  pub In-value :
      (s : Memory) (x : Tree) {u : ℕ} {d : ℤ} → Holds c s x → In u d x → s.value u ≡ some d
  In-value s leaf h i = elim i [ ]
  In-value s (bin l w e r) h (inl i) = In-value s l h.2 i
  In-value s (bin l w e r) h (inr (inl i)) = rw (i.0, i.1) (h.0)
  In-value s (bin l w e r) h (inr (inr i)) = In-value s r h.3 i

  -- Objects with different values have their nodes at different addresses.
  pub member-ne :
      (s : Memory) (a b : ℕ) {x y : ℤ}
      → s.value a ≡ some x
      → s.value b ≡ some y
      → x ≢ y
      → member a ≢ member b
  member-ne s a b hx hy ne e = ground (arith, container_of-member a, container_of-member b)

  set_node-ne :
      (s : Memory) (p : ℕ) (n : RbNode) (a : ℕ) → p ≢ a → (set_node s p n).node a ≡ s.node a
  unfolding set_node
  set_node-ne s p n a ne = ground arith

  -- A tree survives a change of memory that spares its nodes.
  Holds-frame :
      (s s' : Memory) (x : Tree)
      → Holds c s x
      → ((u : ℕ) → s'.value u ≡ s.value u)
      → ((u : ℕ) (d : ℤ) → In u d x → s'.node (member u) ≡ s.node (member u))
      → Holds c s' x
  Holds-frame s s' leaf h same spare = tt
  Holds-frame s s' (bin l u d r) h same spare = (
    same u ∙ h.0,
    spare u d (inr (inl (refl, refl))) ∙ h.1,
    Holds-frame s s' l h.2 same (λ w e i. spare w e (inl i)),
    Holds-frame s s' r h.3 same (λ w e i. spare w e (inr (inr i))),
  )

  -- What the end of `insert` leaves: the new tree, written at the node of one object of the old.
  pub record Placed (s s' : Memory) (t : ℕ) (v : ℤ) (x : Tree) : Type 0 where
    pub p : ℕ
    pub key : ℤ
    pub stood : In p key x
    pub same : (u : ℕ) → s'.value u ≡ s.value u
    pub root : s'.root ≡ s.root
    pub spare : (a : ℕ) → a ≢ member p → s'.node a ≡ s.node a
    pub holds : Holds c s' (add t v x)

  module _ (s : Memory) (t : ℕ) (v : ℤ) (has_value : s.value t ≡ some v)
      (no_links : s.node (member t) ≡ some (rb_node 0 0)) where
    -- The memory after the new node has become the left child of `u`.
    pub Placed-left :
        (u : ℕ) (d : ℤ) (r : Tree)
        → Holds c s (bin leaf u d r)
        → IsOrdered (bin leaf u d r)
        → lt_int v d ≡ true
        → Placed s (set_node s (member u) (rb_node (member t) (top c r))) t v (bin leaf u d r)
    unfolding set_node add
    Placed-left u d r h o low = record {
      p = u;
      key = d;
      stood = inr (inl (refl, refl));
      same = λ a. refl;
      root = refl;
      spare = λ a ne. ground arith;
      holds = rw low (
        h.0,
        ground arith,
        (has_value, ground (arith, apart), tt, tt),
        Holds-frame s (set_node s (member u) (rb_node (member t) (top c r))) r h.3 (λ a. refl)
            (λ a e i. set_node-ne s (member u) _ (member a) (right a e i)),
      );
    }
      where
        apart : member t ≢ member u
        apart = member-ne s t u has_value h.0 (ltℤ_ne v d (lt_int→lt v d low))

        right : (a : ℕ) (e : ℤ) → In a e r → member u ≢ member a
        right a e i = member-ne s u a h.0 (In-value s r h.3 i) (ltℤ_ne d e (Above-In e d a r o.1 i))

    -- The memory after the new node has become the right child of `u`.
    pub Placed-right :
        (l : Tree) (u : ℕ) (d : ℤ)
        → Holds c s (bin l u d leaf)
        → IsOrdered (bin l u d leaf)
        → lt_int v d ≡ false
        → lt_int d v ≡ true
        → Placed s (set_node s (member u) (rb_node (top c l) (member t))) t v (bin l u d leaf)
    unfolding set_node add
    Placed-right l u d h o high up = record {
      p = u;
      key = d;
      stood = inr (inl (refl, refl));
      same = λ a. refl;
      root = refl;
      spare = λ a ne. ground arith;
      holds = rw high (
        h.0,
        ground arith,
        Holds-frame s (set_node s (member u) (rb_node (top c l) (member t))) l h.2 (λ a. refl)
            (λ a e i. set_node-ne s (member u) _ (member a) (left a e i)),
        (has_value, ground (arith, apart), tt, tt),
      );
    }
      where
        apart : member t ≢ member u
        apart e = member-ne s u t h.0 has_value (ltℤ_ne d v (lt_int→lt d v up)) (sym e)

        left : (a : ℕ) (e : ℤ) → In a e l → member u ≢ member a
        left a e i q =
            member-ne s a u (In-value s l h.2 i) h.0 (ltℤ_ne e d (Below-In e d a l o.0 i)) (sym q)

    module _ {s' : Memory} (l : Tree) (u : ℕ) (d : ℤ) (r : Tree) (h : Holds c s (bin l u d r))
        (o : IsOrdered (bin l u d r)) where
      pub lift-left :
          top c (add t v l) ≡ top c l
          → lt_int v d ≡ true
          → Placed s s' t v l
          → Placed s s' t v (bin l u d r)
      unfolding add
      lift-left kept low f = record {
        p = f.p;
        key = f.key;
        stood = inl f.stood;
        same = f.same;
        root = f.root;
        spare = f.spare;
        holds =
            rw (low, kept)
              (
                f.same u ∙ h.0,
                f.spare (member u) here ∙ h.1,
                f.holds,
                Holds-frame s s' r h.3 f.same (λ a e i. f.spare (member a) (there a e i)),
              );
      }
        where
          under : f.key <ℤ d
          under = Below-In f.key d f.p l o.0 f.stood

          here : member u ≢ member f.p
          here e = member-ne s f.p u (In-value s l h.2 f.stood) h.0 (ltℤ_ne f.key d under) (sym e)

          there : (a : ℕ) (e : ℤ) → In a e r → member a ≢ member f.p
          there a e i q =
              member-ne s f.p a (In-value s l h.2 f.stood) (In-value s r h.3 i)
                (ltℤ_ne f.key e (omega (arith, under, Above-In e d a r o.1 i))) (sym q)

      pub lift-right :
          top c (add t v r) ≡ top c r
          → lt_int v d ≡ false
          → Placed s s' t v r
          → Placed s s' t v (bin l u d r)
      unfolding add
      lift-right kept high f = record {
        p = f.p;
        key = f.key;
        stood = inr (inr f.stood);
        same = f.same;
        root = f.root;
        spare = f.spare;
        holds =
            rw (high, kept)
              (
                f.same u ∙ h.0,
                f.spare (member u) here ∙ h.1,
                Holds-frame s s' l h.2 f.same (λ a e i. f.spare (member a) (there a e i)),
                f.holds,
              );
      }
        where
          over : d <ℤ f.key
          over = Above-In f.key d f.p r o.1 f.stood

          here : member u ≢ member f.p
          here = member-ne s u f.p h.0 (In-value s r h.3 f.stood) (ltℤ_ne d f.key over)

          there : (a : ℕ) (e : ℤ) → In a e l → member a ≢ member f.p
          there a e i =
              member-ne s a f.p (In-value s l h.2 i) (In-value s r h.3 f.stood)
                (ltℤ_ne e f.key (omega (arith, over, Below-In e d a l o.0 i)))
