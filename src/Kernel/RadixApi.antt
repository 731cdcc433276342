-- ===== src/Kernel/RadixApi.antt =====
-- The radix tree of linux/radix-tree.h behind its documented behaviour: a map from keys to
-- pointers, where 0 is NULL.
use lkb.Common.{ℕ, ℤ, pos, ◌≡◌, ◌≢◌, ◌==◌, if◌then◌else◌}

pub record RadixApi : Type 1 where
  pub Tree : Type 0
  pub init_radix_tree : Tree → Tree
  -- 0, or a negative error: no memory, or an item under the key.
  pub radix_tree_insert : (key item : ℕ) → Tree → ℤ × Tree
  pub radix_tree_lookup : Tree → ℕ → ℕ
  -- The item that stood under the key, or NULL.
  pub radix_tree_delete : ℕ → Tree → ℕ × Tree
  pub lookup-init : (t : Tree) (k : ℕ) → radix_tree_lookup (init_radix_tree t) k ≡ 0
  pub lookup-insert :
      (key item : ℕ) (t : Tree) (k : ℕ)
      → (radix_tree_insert key item t).0 ≡ pos 0
      → radix_tree_lookup (radix_tree_insert key item t).1 k
        ≡ (if k == key then item else radix_tree_lookup t k)
  pub lookup-insert_failed :
      (key item : ℕ) (t : Tree) (k : ℕ)
      → (radix_tree_insert key item t).0 ≢ pos 0
      → radix_tree_lookup (radix_tree_insert key item t).1 k ≡ radix_tree_lookup t k
  pub insert_taken :
      (key item : ℕ) (t : Tree)
      → radix_tree_lookup t key ≢ 0
      → (radix_tree_insert key item t).0 ≢ pos 0
  pub delete_lem : (key : ℕ) (t : Tree) → (radix_tree_delete key t).0 ≡ radix_tree_lookup t key
  pub lookup-delete :
      (key : ℕ) (t : Tree) (k : ℕ)
      → radix_tree_lookup (radix_tree_delete key t).1 k
        ≡ (if k == key then 0 else radix_tree_lookup t k)
