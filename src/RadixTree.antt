-- ===== src/RadixTree.antt =====
-- radix_tree/code.c: `start` over the interface of the tree. `item` is the address of the local
-- variable, and `memory` what stands at every other address.
pub mod Start
mod Tests
use lkb.Common.{ℕ, ℤ, pos, negsuc, is_zero, not, ◌==◌, if◌then◌else◌}
use lkb.Common.Events.{Io, ◌>>=◌, ◌>>◌, emit, return}
use lkb.Kernel.RadixApi.{RadixApi}

-- What is printed.
pub data Line : Type 0 where
  insert_failed : Line
  insert_success : Line
  lookup_failed : Line
  lookup_success : Line
  lookup_value : ℕ → Line
  delete_failed : Line
  delete_value : ℕ → Line

-- `key` and `failkey`, and the value of `item`.
abbrev pub key : ℕ
key = 5

abbrev pub failkey : ℕ
failkey = 50

abbrev pub item_value : ℕ
item_value = 14

module _ (api : RadixApi) where
  open api use {Tree, init_radix_tree, radix_tree_insert, radix_tree_lookup, radix_tree_delete}

  -- The two deletions.
  unfoldable pub delete_both : (at : ℕ → ℕ) → Tree → Io Line (Tree × ℤ)
  delete_both at t = do
    let wrong = radix_tree_delete failkey t
    emit (if wrong.0 == 0 then delete_failed else delete_value (at wrong.0))
    let right = radix_tree_delete key wrong.1
    emit (if right.0 == 0 then delete_failed else delete_value (at right.0))
    return (right.1, pos 0)

  -- `start`: the tree at its end, and its result.
  unfoldable pub start : (item : ℕ) (memory : ℕ → ℕ) → Tree → Io Line (Tree × ℤ)
  start item memory t = do
    let at = λ (p : ℕ). if p == item then item_value else memory p
    let made = radix_tree_insert key item (init_radix_tree t)
    if not (is_zero made.0) then emit insert_failed >> return (made.1, negsuc 0) else do
      emit insert_success
      emit (if radix_tree_lookup made.1 failkey == 0 then lookup_failed else lookup_success)
      let r = radix_tree_lookup made.1 key
      emit (if r == 0 then lookup_failed else lookup_value (at r))
      delete_both at made.1
