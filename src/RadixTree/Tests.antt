-- ===== src/RadixTree/Tests.antt =====
-- radix_tree/code.c over a tree that is a function, with memory for every node.
use lkb.Common.{ℕ, ℤ, pos, negsuc, ◌≡◌, ◌≢◌, refl, ◌==◌, if◌then◌else◌, [], ◌∷◌, arith}
use lkb.Kernel.RadixApi.{RadixApi}
use lkb.RadixTree.{
  insert_failed, insert_success, lookup_failed, lookup_value, delete_failed, delete_value, key,
  start,
}
use lkb.RadixTree.Start.{start_empties}

-- `-EEXIST` where the key is taken.
abbrev put : (key item : ℕ) → (ℕ → ℕ) → ℤ × (ℕ → ℕ)
put key item t = if t key == 0 then (pos 0, λ k. if k == key then item else t k) else (negsuc 16, t)

put_lem :
    (key item : ℕ) (t : ℕ → ℕ) (k : ℕ)
    → (put key item t).0 ≡ pos 0
    → (put key item t).1 k ≡ (if k == key then item else t k)
put_lem key item t k h = ground arith

put_failed :
    (key item : ℕ) (t : ℕ → ℕ) (k : ℕ) → (put key item t).0 ≢ pos 0 → (put key item t).1 k ≡ t k
put_failed key item t k h = ground arith

put_taken : (key item : ℕ) (t : ℕ → ℕ) → t key ≢ 0 → (put key item t).0 ≢ pos 0
put_taken key item t h = ground arith

abbrev table : RadixApi
table = record {
  Tree = ℕ → ℕ;
  init_radix_tree = λ t k. 0;
  radix_tree_insert = put;
  radix_tree_lookup = λ t k. t k;
  radix_tree_delete = λ key t. (t key, λ k. if k == key then 0 else t k);
  lookup-init = λ t k. refl;
  lookup-insert = put_lem;
  lookup-insert_failed = put_failed;
  insert_taken = put_taken;
  delete_lem = λ key t. refl;
  lookup-delete = λ key t k. refl;
}

abbrev full : ℕ → ℕ
full k = 7

start_empties_example :
    let made = (table.radix_tree_insert key 4096 (table.init_radix_tree full)).0 in
    (made ≡ pos 0
      → ((start table 4096 full full).0
          ≡ insert_success ∷ lookup_failed ∷ lookup_value 14 ∷ delete_failed ∷ delete_value 14 ∷ [])
        × ((start table 4096 full full).1.1 ≡ pos 0))
    × (made ≢ pos 0
        → ((start table 4096 full full).0 ≡ insert_failed ∷ [])
          × ((start table 4096 full full).1.1 ≡ negsuc 0))
    × ((k : ℕ) → table.radix_tree_lookup (start table 4096 full full).1.0 k ≡ 0)
start_empties_example = start_empties table 4096 full full (omega arith)
