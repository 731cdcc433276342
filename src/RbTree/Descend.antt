-- ===== src/RbTree/Descend.antt =====
-- The loop of `insert` of red_black_tree/code.c, and the write after it, over a tree in memory.
use lkb.Common.{
  ℕ, zero, suc, ◌≡◌, ◌≢◌, ◌<◌, inl, inr, refl, ◌∙◌, ℤ, lt_int, Bool-cases, none, some, ok, arith,
  true, false,
}
use lkb.Kernel.ContainerOf.{ContainerOf}
use lkb.RbTree.{rb_node, Memory, set_node, Walk, walk, descend, attach}
use lkb.RbTree.Shape.{Tree, leaf, bin, height, IsOrdered, find, add, top, Holds}
use lkb.RbTree.Place.{Placed, Placed-left, Placed-right, lift-left, lift-right}

module _ (c : ContainerOf) where
  open c use {member, container_of, container_of-member, member-ne_null}

  pub top-add :
      (t : ℕ) (v : ℤ) (l : Tree) (u : ℕ) (d : ℤ) (r : Tree)
      → top c (add t v (bin l u d r)) ≡ member u
  unfolding add
  top-add t v l u d r = ground arith

  module _ (s : Memory) (t : ℕ) (v : ℤ) (has_value : s.value t ≡ some v) where
    -- One round of the loop at an object of the tree.
    descend-left :
        (k p q : ℕ) (l : Tree) (u : ℕ) (d : ℤ) (r : Tree)
        → Holds c s (bin l u d r)
        → lt_int v d ≡ true
        → descend c (suc k) (walk p q (member u)) t s
          ≡ descend c k (walk (member u) u (top c l)) t s
    unfolding descend
    descend-left k p q l u d r h low = ground (arith, container_of-member u, member-ne_null u)

    descend-right :
        (k p q : ℕ) (l : Tree) (u : ℕ) (d : ℤ) (r : Tree)
        → Holds c s (bin l u d r)
        → lt_int v d ≡ false
        → lt_int d v ≡ true
        → descend c (suc k) (walk p q (member u)) t s
          ≡ descend c k (walk (member u) u (top c r)) t s
    unfolding descend
    descend-right k p q l u d r h high up = ground (arith, container_of-member u, member-ne_null u)

    -- Where the value is in the tree, the loop breaks off at its node.
    pub descend-find :
        (k p q : ℕ) (x : Tree) {u : ℕ}
        → Holds c s x
        → find v x ≡ some u
        → height x < k
        → (w : Walk) × (descend c k (walk p q (top c x)) t s ≡ ok w) × (w.tmp ≢ 0)
    unfolding descend find
    descend-find k p q leaf h e fuel = cc
    descend-find zero p q (bin l a d r) h e fuel = absurd (omega arith)
    descend-find (suc k) p q (bin l a d r) h e fuel = elim (Bool-cases (lt_int v d)) [
      | inl low ↦
          let (w, run, stop) = descend-find k (member a) a l h.2 (rw low at e) (omega arith) in
          (w, descend-left k p q l a d r h low ∙ run, stop)
      | inr high ↦ elim (Bool-cases (lt_int d v)) [
        | inl up ↦
            let (w, run, stop) =
              descend-find k (member a) a r h.3 (rw (high, up) at e) (omega arith) in
            (w, descend-right k p q l a d r h high up ∙ run, stop)
        | inr same ↦ (
          walk (member a) a (member a),
          ground (arith, container_of-member a, member-ne_null a),
          member-ne_null a,
        )
      ]
    ]

    module _ (no_links : s.node (member t) ≡ some (rb_node 0 0)) where
      -- What the loop and the write after it come to, from the subtree `x`.
      abbrev pub Placing : ℕ → ℕ → ℕ → Tree → Type 0
      Placing k p q x =
          (w : Walk) × (s' : Memory) × (descend c k (walk p q (top c x)) t s ≡ ok w)
          × (w.tmp ≡ 0)
          × (attach c w t s ≡ ok s')
          × Placed c s s' t v x

      attach-left :
          (k : ℕ) (u : ℕ) (d : ℤ) (r : Tree)
          → Holds c s (bin leaf u d r)
          → IsOrdered (bin leaf u d r)
          → lt_int v d ≡ true
          → (p q : ℕ) → Placing (suc (suc k)) p q (bin leaf u d r)
      unfolding attach descend
      attach-left k u d r h o low p q = (
        walk (member u) u 0,
        set_node s (member u) (rb_node (member t) (top c r)),
        ground (arith, container_of-member u, member-ne_null u),
        refl,
        rw (h.0, has_value, h.1, low),
        Placed-left c s t v has_value no_links u d r h o low,
      )

      attach-right :
          (k : ℕ) (l : Tree) (u : ℕ) (d : ℤ)
          → Holds c s (bin l u d leaf)
          → IsOrdered (bin l u d leaf)
          → lt_int v d ≡ false
          → lt_int d v ≡ true
          → (p q : ℕ) → Placing (suc (suc k)) p q (bin l u d leaf)
      unfolding attach descend
      attach-right k l u d h o high up p q = (
        walk (member u) u 0,
        set_node s (member u) (rb_node (top c l) (member t)),
        ground (arith, container_of-member u, member-ne_null u),
        refl,
        rw (h.0, has_value, h.1, high),
        Placed-right c s t v has_value no_links l u d h o high up,
      )

      extend :
          (k : ℕ) (p q a b : ℕ) (x y : Tree)
          → descend c (suc k) (walk p q (top c y)) t s ≡ descend c k (walk a b (top c x)) t s
          → ((s' : Memory) → Placed c s s' t v x → Placed c s s' t v y)
          → Placing k a b x
          → Placing (suc k) p q y
      extend k p q a b x y step lift (w, s', run, out, linked, f) =
          (w, s', step ∙ run, out, linked, lift s' f)

      abbrev pub Step : ℕ → Type 0
      Step k =
          (p q : ℕ) (l : Tree) (u : ℕ) (d : ℤ) (r : Tree)
          → Holds c s (bin l u d r)
          → IsOrdered (bin l u d r)
          → find v (bin l u d r) ≡ none
          → height (bin l u d r) < k
          → Placing k p q (bin l u d r)

      go-left :
          (k : ℕ)
          → Step k
          → (p q : ℕ) (l : Tree) (u : ℕ) (d : ℤ) (r : Tree) → Holds c s (bin l u d r)
          → IsOrdered (bin l u d r)
          → find v l ≡ none
          → height (bin l u d r) < suc k
          → lt_int v d ≡ true
          → Placing (suc k) p q (bin l u d r)
      go-left zero ih p q l u d r h o new fuel low = absurd (omega arith)
      go-left (suc k) ih p q leaf u d r h o new fuel low = attach-left k u d r h o low p q
      go-left (suc k) ih p q (bin l w e m) u d r h o new fuel low =
          extend (suc k) p q (member u) u (bin l w e m) (bin (bin l w e m) u d r)
            (descend-left (suc k) p q (bin l w e m) u d r h low)
            (λ s' f.
              lift-left c s t v has_value no_links (bin l w e m) u d r h o (top-add t v l w e m) low
                f)
            (ih (member u) u l w e m h.2 o.2 new (omega arith))

      go-right :
          (k : ℕ)
          → Step k
          → (p q : ℕ) (l : Tree) (u : ℕ) (d : ℤ) (r : Tree) → Holds c s (bin l u d r)
          → IsOrdered (bin l u d r)
          → find v r ≡ none
          → height (bin l u d r) < suc k
          → lt_int v d ≡ false
          → lt_int d v ≡ true
          → Placing (suc k) p q (bin l u d r)
      go-right zero ih p q l u d r h o new fuel high up = absurd (omega arith)
      go-right (suc k) ih p q l u d leaf h o new fuel high up = attach-right k l u d h o high up p q
      go-right (suc k) ih p q l u d (bin m w e r) h o new fuel high up =
          extend (suc k) p q (member u) u (bin m w e r) (bin l u d (bin m w e r))
            (descend-right (suc k) p q l u d (bin m w e r) h high up)
            (λ s' f.
              lift-right c s t v has_value no_links l u d (bin m w e r) h o (top-add t v m w e r)
                high f)
            (ih (member u) u m w e r h.3 o.3 new (omega arith))

      pub descend-Placed : (k : ℕ) → Step k
      unfolding find
      descend-Placed zero p q l u d r h o new fuel = absurd (omega arith)
      descend-Placed (suc k) p q l u d r h o new fuel = elim (Bool-cases (lt_int v d)) [
        | inl low ↦ go-left k (descend-Placed k) p q l u d r h o (rw low at new) fuel low
        | inr high ↦ elim (Bool-cases (lt_int d v)) [
          | inl up ↦
              go-right k (descend-Placed k) p q l u d r h o (rw (high, up) at new) fuel high up
          | inr same ↦ let e : some u ≡ none = rw (high, same) at new in cc
        ]
      ]
