-- ===== src/RadixTree/Start.antt =====
-- What `start` of radix_tree/code.c prints and leaves.
use lkb.Common.{
  ℕ, ℤ, pos, negsuc, is_zero, is_zero_iff, ◌≡◌, ◌≢◌, refl, ◌∙◌, ap, true, false, ◌==◌,
  if◌then◌else◌, Bool-cases, inl, inr, [], ◌∷◌, arith,
}
use lkb.Kernel.RadixApi.{RadixApi}
use lkb.RadixTree.{
  insert_failed, insert_success, lookup_failed, lookup_value, delete_failed, delete_value, key,
  failkey, delete_both, start,
}

module _ (api : RadixApi) where
  open api use {Tree, init_radix_tree, radix_tree_insert, radix_tree_lookup, radix_tree_delete}

  module _ (item : ℕ) (memory : ℕ → ℕ) (t : Tree) (given : item ≢ 0) where
    abbrev made : ℤ × Tree
    made = radix_tree_insert key item (init_radix_tree t)

    succeeds :
        made.0 ≡ pos 0
        → ((start api item memory t).0
            ≡ insert_success
              ∷ lookup_failed
              ∷ lookup_value 14
              ∷ delete_failed
              ∷ delete_value 14
              ∷ [])
          × ((start api item memory t).1.1 ≡ pos 0)
          × ((k : ℕ) → radix_tree_lookup (start api item memory t).1.0 k ≡ 0)
    unfolding start delete_both
    succeeds e =
        let zero_result : is_zero made.0 ≡ true = (is_zero_iff made.0).0.1 e in
        let found : (k : ℕ) → radix_tree_lookup made.1 k ≡ (if k == key then item else 0) = λ k.
          api.lookup-insert key item (init_radix_tree t) k e
          ∙ ap (λ n. if k == key then item else n) (api.lookup-init t k) in
        let wrong = radix_tree_delete failkey made.1 in
        let left : (k : ℕ) → radix_tree_lookup wrong.1 k ≡ (if k == key then item else 0) =
          λ k. api.lookup-delete failkey made.1 k ∙ ground (arith, found k) in
        let none : wrong.0 ≡ 0 = api.delete_lem failkey made.1 ∙ found failkey in
        let right : (radix_tree_delete key wrong.1).0 ≡ item =
          api.delete_lem key wrong.1 ∙ left key in
        let test : (item == 0) ≡ false = ground arith in
        let same : (item == item) ≡ true = ground arith in
        rw (zero_result, found failkey, found key, none, right, test, same)
          (refl, refl, λ k. api.lookup-delete key wrong.1 k ∙ ground (arith, left k))

    fails :
        made.0 ≢ pos 0
        → ((start api item memory t).0 ≡ insert_failed ∷ [])
          × ((start api item memory t).1.1 ≡ negsuc 0)
          × ((k : ℕ) → radix_tree_lookup (start api item memory t).1.0 k ≡ 0)
    unfolding start
    fails e =
        let bad : is_zero made.0 ≡ false = (is_zero_iff made.0).1.1 e in
        rw bad (
          refl,
          refl,
          λ k. api.lookup-insert_failed key item (init_radix_tree t) k e ∙ api.lookup-init t k,
        )

  -- Whatever the tree was before: if the insertion succeeds, `start` finds the value under its key
  -- and none under the other, deletes in the same way, prints the value both times and returns 0;
  -- if the insertion fails, it returns -1. In both cases the tree is empty at its end, so no
  -- pointer to the local variable is left in it.
  pub start_empties :
      (item : ℕ) (memory : ℕ → ℕ) (t : Tree)
      → item ≢ 0
      → let made = (radix_tree_insert key item (init_radix_tree t)).0 in
        (made ≡ pos 0
          → ((start api item memory t).0
              ≡ insert_success
                ∷ lookup_failed
                ∷ lookup_value 14
                ∷ delete_failed
                ∷ delete_value 14
                ∷ [])
            × ((start api item memory t).1.1 ≡ pos 0))
        × (made ≢ pos 0
            → ((start api item memory t).0 ≡ insert_failed ∷ [])
              × ((start api item memory t).1.1 ≡ negsuc 0))
        × ((k : ℕ) → radix_tree_lookup (start api item memory t).1.0 k ≡ 0)
  start_empties item memory t given =
      let good = succeeds item memory t given in
      let bad = fails item memory t given in
      (
        λ e. ((good e).0, (good e).1),
        λ e. ((bad e).0, (bad e).1),
        elim (Bool-cases (is_zero (radix_tree_insert key item (init_radix_tree t)).0)) [
          | inl z ↦ (good ((is_zero_iff _).0.0 z)).2
          | inr z ↦ (bad ((is_zero_iff _).1.0 z)).2
        ],
      )
