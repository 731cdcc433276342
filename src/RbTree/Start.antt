-- ===== src/RbTree/Start.antt =====
-- `start` and `print` of red_black_tree/code.c. `item i` is the address of `tree[i]`; `rb_first`
-- and `rb_next`, which belong to the kernel, are parameters that may give anything; the parent, which
-- the second reads at an object without a right child, is set by no code of the file.
use lkb.Common.{
  ℕ, zero, suc, ◌*◌, ◌==◌, if◌then◌else◌, ℤ, pos, some, List, [], ◌∷◌, Run, ok, out_of_fuel, ◌>>=◌,
  read,
}
use lkb.Kernel.ContainerOf.{ContainerOf}
use lkb.RbTree.{rb_node, Memory, set_node, search, insert}

-- `#define element 14`
abbrev pub element : ℕ
element = 14

module _ (c : ContainerOf) where
  open c use {container_of}

  -- The loop of `print`: the values printed.
  unfoldable pub print_loop : (ℕ → ℕ) → ℕ → ℕ → Memory → Run (List ℤ)
  print_loop rb_next zero tmp s = out_of_fuel
  print_loop rb_next (suc k) tmp s = if tmp == 0 then ok [] else do
    d ← read (s.value (container_of tmp))
    rest ← print_loop rb_next k (rb_next tmp) s
    ok (d ∷ rest)

module _ (c : ContainerOf) (item : ℕ → ℕ) where
  open c use {member}

  -- The first loop: the values i * 100, and no links.
  unfoldable pub fill : ℕ → Memory → Memory
  unfolding set_node
  fill zero s = s
  fill (suc i) s =
      let s' = fill i s in
      set_node (record s' { value = λ a. if a == item i then some (pos (i * 100)) else s'.value a })
        (member (item i)) (rb_node 0 0)

  -- The second loop; the result of `insert` is dropped.
  unfoldable pub insert_all : ℕ → ℕ → Memory → Run Memory
  insert_all fuel zero s = ok s
  insert_all fuel (suc i) s = do s' ← insert_all fuel i s; r ← insert c fuel (item i) s'; ok r.1

  -- `start`: the result of `search` for 200, what is printed, and the memory.
  unfoldable pub start : (Memory → ℕ) → (Memory → ℕ → ℕ) → ℕ → Memory → Run (ℕ × List ℤ × Memory)
  start rb_first rb_next fuel s = do
    s' ← insert_all fuel element (fill element s)
    t ← search c fuel s' (pos 200)
    printed ← print_loop c (rb_next s') fuel (rb_first s') s'
    ok (t, printed, s')
