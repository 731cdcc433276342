-- ===== src/RbTree/Search.antt =====
-- `search` finds what the tree in memory holds.
use lkb.Common.{
  ℕ, zero, suc, ◌≡◌, ◌≢◌, ◌<◌, inl, inr, refl, ap, ◌∙◌, ℤ, lt_int, lt_int-false, lt→lt_int,
  le→lt_int-false, eq_of_parts, ◌<ℤ◌, Bool-cases, Option, none, some, ok, arith,
}
use lkb.Kernel.ContainerOf.{ContainerOf}
use lkb.RbTree.{Memory, search_loop, search}
use lkb.RbTree.Shape.{Tree, leaf, bin, height, In, Below, Above, IsOrdered, find, top, Holds}

-- The address that a search returns; 0 is NULL.
abbrev pub address : Option ℕ → ℕ
address none = 0
address (some t) = t

pub Below-In : (v d : ℤ) (t : ℕ) (x : Tree) → Below d x → In t v x → v <ℤ d
Below-In v d t leaf b h = elim h [ ]
Below-In v d t (bin l u e r) b (inl h) = Below-In v d t l b.1 h
Below-In v d t (bin l u e r) b (inr (inl h)) = rw (h.1) b.0
Below-In v d t (bin l u e r) b (inr (inr h)) = Below-In v d t r b.2 h

pub Above-In : (v d : ℤ) (t : ℕ) (x : Tree) → Above d x → In t v x → d <ℤ v
Above-In v d t leaf b h = elim h [ ]
Above-In v d t (bin l u e r) b (inl h) = Above-In v d t l b.1 h
Above-In v d t (bin l u e r) b (inr (inl h)) = rw (h.1) b.0
Above-In v d t (bin l u e r) b (inr (inr h)) = Above-In v d t r b.2 h

pub find-In : (v : ℤ) (t : ℕ) (x : Tree) → IsOrdered x → In t v x → find v x ≡ some t
unfolding find
find-In v t leaf o h = elim h [ ]
find-In v t (bin l u d r) o (inl h) =
    rw (lt→lt_int v d (Below-In v d t l o.0 h)) (find-In v t l o.2 h)
find-In v t (bin l u d r) o (inr (inl h)) = rw (h.1, le→lt_int-false d d (omega arith), h.0)
find-In v t (bin l u d r) o (inr (inr h)) =
    let above = Above-In v d t r o.1 h in
    rw (le→lt_int-false v d (omega arith), lt→lt_int d v above) (find-In v t r o.3 h)

pub In-find : (v : ℤ) (t : ℕ) (x : Tree) → find v x ≡ some t → In t v x
unfolding find
In-find v t leaf h = cc
In-find v t (bin l u d r) h = elim (Bool-cases (lt_int v d)) [
  | inl low ↦ inl (In-find v t l (rw low at h))
  | inr high ↦ elim (Bool-cases (lt_int d v)) [
    | inl up ↦ inr (inr (In-find v t r (rw (high, up) at h)))
    | inr same ↦
        let e : some u ≡ some t = rw (high, same) at h in
        inr
          (inl (cc, eq_of_parts v d (omega (arith, lt_int-false v d high, lt_int-false d v same))))
  ]
]

module _ (c : ContainerOf) where
  open c use {member, container_of, container_of-member, member-ne_null}

  pub search_loop-find :
      (k : ℕ) (x : Tree) (v : ℤ) (s : Memory)
      → Holds c s x
      → height x < k
      → search_loop c k (top c x) v s ≡ ok (address (find v x))
  unfolding search_loop find
  search_loop-find zero x v s h fuel = absurd (omega arith)
  search_loop-find (suc k) leaf v s h fuel = refl
  search_loop-find (suc k) (bin l t d r) v s h fuel = ground (
    arith,
    container_of-member t,
    member-ne_null t,
    search_loop-find k l v s h.2,
    search_loop-find k r v s h.3,
  )

  -- Over a tree in memory, with more rounds than its height, `search` returns what `find` finds.
  pub search-find :
      (fuel : ℕ) (x : Tree) (s : Memory) (v : ℤ)
      → Holds c s x
      → s.root ≡ top c x
      → height x < fuel
      → search c fuel s v ≡ ok (address (find v x))
  unfolding search
  search-find fuel x s v h e enough =
      ap (λ n. search_loop c fuel n v s) e ∙ search_loop-find fuel x v s h enough

  -- Over an ordered tree in memory, with more rounds than its height, `search` ends; if an object
  -- of the tree holds the value it returns that object, and a result that is not NULL is an object
  -- of the tree with the value.
  search-In :
      (fuel : ℕ) (x : Tree) (s : Memory) (v : ℤ)
      → Holds c s x
      → IsOrdered x
      → s.root ≡ top c x
      → height x < fuel
      → (r : ℕ) × (search c fuel s v ≡ ok r) × ((t : ℕ) → In t v x → r ≡ t) × (r ≢ 0 → In r v x)
  search-In fuel x s v h o e enough = (
    address (find v x),
    search-find fuel x s v h e enough,
    λ t i. ap address (find-In v t x o i),
    λ ne. found (find v x) refl ne,
  )
    where
      found : (q : Option ℕ) → find v x ≡ q → address q ≢ 0 → In (address q) v x
      found none at ne = absurd (ne refl)
      found (some t) at ne = In-find v t x at
