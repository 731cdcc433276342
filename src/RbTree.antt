-- ===== src/RbTree.antt =====
-- red_black_tree/code.c: `struct TREE`, `search` and `insert`. A `struct TREE` and the `rb_node`
-- inside it have addresses of their own, and `rb_entry` leads from the second to the first. A loop
-- runs on fuel; the children prove how much is enough.
pub mod Shape
pub mod Search
pub mod Place
pub mod Order
pub mod Descend
pub mod Insert
pub mod Start
pub mod Print
pub mod Range
mod Tests
pub mod Spine
pub mod Whole
pub mod Sorted
pub mod Calls
use lkb.Common.{
  ℕ, zero, suc, ℤ, lt_int, ◌==◌, if◌then◌else◌, not, Option, none, some, Run, ok, fault,
  out_of_fuel, ◌>>=◌, read,
}
use lkb.Kernel.ContainerOf.{ContainerOf}

-- `struct rb_node`, the links that the code uses.
pub record RbNode : Type 0 where
  pub rb_left : ℕ
  pub rb_right : ℕ

abbrev pub rb_node : ℕ → ℕ → RbNode
rb_node l r = record { rb_left = l; rb_right = r }

-- Memory: the field `data` of each `struct TREE`, each `struct rb_node`, and `root->rb_node`.
pub record Memory : Type 0 where
  pub value : ℕ → Option ℤ
  pub node : ℕ → Option RbNode
  pub root : ℕ

unfoldable pub set_node : Memory → ℕ → RbNode → Memory
set_node s p n = record s { node = λ a. if a == p then some n else s.node a }

-- The variables of `insert` after its loop.
pub record Walk : Type 0 where
  pub parent : ℕ
  pub tmp_tree : ℕ
  pub tmp : ℕ

abbrev pub walk : ℕ → ℕ → ℕ → Walk
walk p u n = record { parent = p; tmp_tree = u; tmp = n }

module _ (c : ContainerOf) where
  open c use {member, container_of}

  -- The loop of `search`.
  unfoldable pub search_loop : ℕ → ℕ → ℤ → Memory → Run ℕ
  search_loop zero n wanted s = out_of_fuel
  search_loop (suc k) n wanted s = if n == 0 then ok 0 else do
    d ← read (s.value (container_of n))
    let left = read (s.node n) >>= λ x. search_loop k x.rb_left wanted s
    let right = read (s.node n) >>= λ x. search_loop k x.rb_right wanted s
    if lt_int wanted d then left else if lt_int d wanted then right else ok (container_of n)

  -- `search`; 0 is NULL.
  unfoldable pub search : ℕ → Memory → ℤ → Run ℕ
  unfolding search_loop
  search fuel s wanted = search_loop fuel s.root wanted s

  -- The loop of `insert`, for the node `t`.
  unfoldable pub descend : ℕ → Walk → ℕ → Memory → Run Walk
  descend zero w t s = out_of_fuel
  descend (suc k) w t s = if w.tmp == 0 then ok w else do
    let parent = w.tmp
    let tmp_tree = container_of parent
    d ← read (s.value tmp_tree)
    v ← read (s.value t)
    let left = read (s.node parent) >>= λ x. descend k (walk parent tmp_tree x.rb_left) t s
    let right = read (s.node parent) >>= λ x. descend k (walk parent tmp_tree x.rb_right) t s
    if lt_int v d then left else if lt_int d v then right else ok (walk parent tmp_tree parent)

  -- The end of `insert`: the new node becomes a child of `parent`.
  unfoldable pub attach : Walk → ℕ → Memory → Run Memory
  unfolding set_node
  attach w t s = do
    d ← read (s.value w.tmp_tree)
    v ← read (s.value t)
    x ← read (s.node w.parent)
    let left = set_node s w.parent (record x { rb_left = member t })
    let right = set_node s w.parent (record x { rb_right = member t })
    ok (if lt_int v d then left else right)

  -- `insert`: 0 and the new memory, or 1 where the value is present.
  unfoldable pub insert : ℕ → ℕ → Memory → Run (ℕ × Memory)
  insert fuel t s = if s.root == 0 then ok (0, record s { root = member t }) else do
    w ← descend fuel (walk 0 0 s.root) t s
    let link = attach w t s >>= λ s'. ok (0, s')
    if not (w.tmp == 0) then ok (1, s) else link
