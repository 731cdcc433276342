-- ===== src/RbTree/Calls.antt =====
-- Any calls of `insert` and `search` of red_black_tree/code.c.
pub mod Refine
pub mod Permute
use lkb.Common.{
  ℕ, ◌+◌, ◌≡◌, ◌≢◌, ◌<◌, refl, ◌∙◌, ap, sym, ℤ, lt_int, Bool, not, Bool-cases, ◌⊎◌, inl, inr, ◌==◌,
  List, [], ◌∷◌, Option, none, some, Run, ok, ◌>>=◌, length, arith,
}
use lkb.Kernel.ContainerOf.{ContainerOf}
use lkb.RbTree.{Memory, search, insert}
use lkb.RbTree.Shape.{Tree, leaf, bin, height, In, IsOrdered, find, add, inorder}
use lkb.RbTree.Search.{address, search-find}
use lkb.RbTree.Order.{height-add}
use lkb.RbTree.Insert.{IsTree, IsFresh, insert_new, insert_present}
use lkb.RbTree.Sorted.{insert_sorted, contains, found, contains-find, put, inorder-put}

-- A call: `insert` of an object, `search` for a value.
pub data Call : Type 0 where
  inserts : ℕ → Call
  searches : ℤ → Call

-- The calls on a sorted list, where value t is the value of the object t: whether a value was
-- found, and the list.
unfoldable pub answer_all : (value : ℕ → ℤ) → List Call → List ℤ → List Bool × List ℤ
answer_all value [] xs = ([], xs)
answer_all value (inserts t ∷ cs) xs =
    let rest = answer_all value cs (insert_sorted (value t) xs) in
    (contains (value t) xs ∷ rest.0, rest.1)
answer_all value (searches v ∷ cs) xs =
    let rest = answer_all value cs xs in (contains v xs ∷ rest.0, rest.1)

-- The objects that the calls insert.
abbrev pub inserted : List Call → List ℕ
inserted [] = []
inserted (inserts t ∷ cs) = t ∷ inserted cs
inserted (searches v ∷ cs) = inserted cs

-- The object u is not in the tree.
abbrev pub Outside : ℕ → Tree → Type 0
Outside u leaf = Unit {0}
Outside u (bin l t v r) = (u ≢ t) × Outside u l × Outside u r

-- No object of the tree is at NULL.
abbrev pub NonNull : Tree → Type 0
NonNull leaf = Unit {0}
NonNull (bin l t v r) = (t ≢ 0) × NonNull l × NonNull r

Outside-add : (u t : ℕ) (v : ℤ) (x : Tree) → u ≢ t → Outside u x → Outside u (add t v x)
unfolding add
Outside-add u t v leaf ne h = (ne, tt, tt)
Outside-add u t v (bin l p d r) ne h = elim (Bool-cases (lt_int v d)) [
  | inl low ↦ rw low (h.0, Outside-add u t v l ne h.1, h.2)
  | inr high ↦ rw high (h.0, h.1, Outside-add u t v r ne h.2)
]

Outside-In : (u p : ℕ) (k : ℤ) (x : Tree) → Outside u x → In p k x → u ≢ p
Outside-In u p k leaf h i = elim i [ ]
Outside-In u p k (bin l t v r) h (inl i) = Outside-In u p k l h.1 i
Outside-In u p k (bin l t v r) h (inr (inl i)) = rw (i.0) (h.0)
Outside-In u p k (bin l t v r) h (inr (inr i)) = Outside-In u p k r h.2 i

pub NonNull-add : (t : ℕ) (v : ℤ) (x : Tree) → t ≢ 0 → NonNull x → NonNull (add t v x)
unfolding add
NonNull-add t v leaf ne h = (ne, tt, tt)
NonNull-add t v (bin l p d r) ne h = elim (Bool-cases (lt_int v d)) [
  | inl low ↦ rw low (h.0, NonNull-add t v l ne h.1, h.2)
  | inr high ↦ rw high (h.0, h.1, NonNull-add t v r ne h.2)
]

-- The object t is none of the objects.
abbrev pub Apart : ℕ → List ℕ → Type 0
Apart t [] = Unit {0}
Apart t (u ∷ us) = (u ≢ t) × Apart t us

module _ (c : ContainerOf) where
  -- Runs the calls one by one; the result of `insert` as whether it is 1, that of `search` as
  -- whether it is not NULL.
  unfoldable pub run_all : (fuel : ℕ) → List Call → Memory → Run (List Bool × Memory)
  run_all fuel [] s = ok ([], s)
  run_all fuel (inserts t ∷ cs) s = do
    r ← insert c fuel t s
    rest ← run_all fuel cs (r.1)
    ok ((r.0 == 1) ∷ rest.0, rest.1)
  run_all fuel (searches v ∷ cs) s = do
    r ← search c fuel s v
    rest ← run_all fuel cs s
    ok (not (r == 0) ∷ rest.0, rest.1)

module _ (c : ContainerOf) (value : ℕ → ℤ) where
  open c use {member, container_of, container_of-member}

  -- The objects are apart, not at NULL, unlinked, and in no place of the tree.
  abbrev pub Ready : Memory → Tree → List ℕ → Type 0
  Ready s x [] = Unit {0}
  Ready s x (t ∷ ts) = IsFresh c s t (value t) × (t ≢ 0) × Outside t x × Apart t ts × Ready s x ts

  member-apart : (u p : ℕ) → u ≢ p → member u ≢ member p
  member-apart u p ne e =
      ne (sym (container_of-member u) ∙ ap container_of e ∙ container_of-member p)

  pub Ready-add :
      (s s' : Memory) (t : ℕ) (v : ℤ) (x : Tree) (ts : List ℕ)
      → ((u : ℕ) → s'.value u ≡ s.value u)
      → ((a : ℕ) → ((p : ℕ) (k : ℤ) → In p k x → a ≢ member p) → s'.node a ≡ s.node a)
      → Apart t ts
      → Ready s x ts
      → Ready s' (add t v x) ts
  Ready-add s s' t v x [] same spare apart ready = tt
  Ready-add s s' t v x (u ∷ ts) same spare apart ready = (
    record {
      value = same u ∙ (ready.0).value;
      links =
          spare (member u) (λ p k i. member-apart u p (Outside-In u p k x ready.2 i))
          ∙ (ready.0).links;
    },
    ready.1,
    Outside-add u t v x (apart.0) ready.2,
    ready.3,
    Ready-add s s' t v x ts same spare apart.1 ready.4,
  )
