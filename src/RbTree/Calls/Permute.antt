-- ===== src/RbTree/Calls/Permute.antt =====
-- The order of the calls of `insert` of red_black_tree/code.c.
use lkb.Common.{
  ℕ, suc, ◌+◌, ◌<◌, ◌≡◌, refl, ◌∙◌, ap, sym, ℤ, lt_int, eq_of_parts, lt_int-false, Bool, true,
  false, Bool-cases, inl, inr, List, [], ◌∷◌, ◌++◌, map, ok, length, arith,
}
use mathlib.Core.Logic.{∥∥₁_elim}
use mathlib.Core.List.{Perm, Permᴰ}
use mathlib.Core.List.Permᴰ.{nil, cons, swap, trans}
use lkb.Kernel.ContainerOf.{ContainerOf}
use lkb.RbTree.{Memory}
use lkb.RbTree.Shape.{Tree, height, inorder}
use lkb.RbTree.Insert.{IsTree}
use lkb.RbTree.Sorted.{insert_sorted, contains}
use lkb.RbTree.Calls.{Call, inserts, searches, answer_all, inserted, run_all, NonNull, Ready}
use lkb.RbTree.Calls.Refine.{calls_refine}

insert_each : List ℤ → List ℤ → List ℤ
insert_each [] xs = xs
insert_each (v ∷ vs) xs = insert_each vs (insert_sorted v xs)

int_eq : (a b : ℤ) → lt_int a b ≡ false → lt_int b a ≡ false → a ≡ b
int_eq a b h h' = eq_of_parts a b (omega (arith, lt_int-false a b h, lt_int-false b a h'))

swap_apart :
    (a b : ℤ) (xs : List ℤ)
    → lt_int a b ≡ true
    → insert_sorted a (insert_sorted b xs) ≡ insert_sorted b (insert_sorted a xs)
unfolding lt_int
swap_apart a b [] lt = ground arith
swap_apart a b (x ∷ xs) lt = ground (arith, swap_apart a b xs lt)

insert_sorted-swap :
    (a b : ℤ) (xs : List ℤ)
    → insert_sorted a (insert_sorted b xs) ≡ insert_sorted b (insert_sorted a xs)
insert_sorted-swap a b xs = elim (Bool-cases (lt_int a b)) [
  | inl lt ↦ swap_apart a b xs lt
  | inr ge ↦ elim (Bool-cases (lt_int b a)) [
    | inl gt ↦ sym (swap_apart b a xs gt)
    | inr le ↦ rw (int_eq a b ge le) refl
  ]
]

insert_each-Permᴰ :
    {vs ws : List ℤ} (xs : List ℤ) → Permᴰ vs ws → insert_each vs xs ≡ insert_each ws xs
unfolding insert_each
insert_each-Permᴰ xs nil = refl
insert_each-Permᴰ xs (cons {l₂ = ws} e p) =
    insert_each-Permᴰ _ p ∙ ap (λ v. insert_each ws (insert_sorted v xs)) e
insert_each-Permᴰ xs (swap {a} {b} {l = ws} e f) =
    ap (insert_each ws) (insert_sorted-swap b a xs) ∙ rw (e, f) refl
insert_each-Permᴰ xs (trans p q) = insert_each-Permᴰ xs p ∙ insert_each-Permᴰ xs q

inserted-searches : (cs : List Call) (vs : List ℤ) → inserted (cs ++ map searches vs) ≡ inserted cs
inserted-searches [] [] = refl
inserted-searches [] (v ∷ vs) = inserted-searches [] vs
inserted-searches (inserts t ∷ cs) vs = ap (λ ts. t ∷ ts) (inserted-searches cs vs)
inserted-searches (searches v ∷ cs) vs = inserted-searches cs vs

length-map : {A B : Type 0} (f : A → B) (xs : List A) → length (map f xs) ≡ length xs
length-map f [] = refl
length-map f (x ∷ xs) = ap suc (length-map f xs)

length-answers :
    (value : ℕ → ℤ) (cs : List Call) (xs : List ℤ) → length (answer_all value cs xs).0 ≡ length cs
unfolding answer_all
length-answers value [] xs = refl
length-answers value (inserts t ∷ cs) xs =
    ap suc (length-answers value cs (insert_sorted (value t) xs))
length-answers value (searches v ∷ cs) xs = ap suc (length-answers value cs xs)

insert_each-Perm :
    {vs ws : List ℤ} (xs : List ℤ) → Perm vs ws → insert_each vs xs ≡ insert_each ws xs
insert_each-Perm xs p =
    let set : IsSet (List ℤ) = hlevel in ∥∥₁_elim p (set _ _) (λ d. insert_each-Permᴰ xs d)

module _ (value : ℕ → ℤ) where
  -- The values that the calls leave.
  left : List Call → List ℤ → List ℤ
  left cs xs = insert_each (map value (inserted cs)) xs

  answers :
      (vs xs : List ℤ) → (answer_all value (map searches vs) xs).0 ≡ map (λ v. contains v xs) vs
  unfolding answer_all
  answers [] xs = refl
  answers (v ∷ vs) xs = ap (λ bs. contains v xs ∷ bs) (answers vs xs)

  answer_all-searches :
      (cs : List Call) (vs xs : List ℤ)
      → (answer_all value (cs ++ map searches vs) xs).0
        ≡ (answer_all value cs xs).0 ++ map (λ v. contains v (left cs xs)) vs
  unfolding answer_all left insert_each
  answer_all-searches [] vs xs = answers vs xs
  answer_all-searches (inserts t ∷ cs) vs xs =
      ap (λ bs. contains (value t) xs ∷ bs) (answer_all-searches cs vs (insert_sorted (value t) xs))
  answer_all-searches (searches v ∷ cs) vs xs =
      ap (λ bs. contains v xs ∷ bs) (answer_all-searches cs vs xs)

  module _ (c : ContainerOf) where
    run_searches :
        (fuel : ℕ) (cs : List Call) (vs : List ℤ) (s : Memory) (x : Tree)
        → IsTree c s x
        → NonNull x
        → Ready c value s x (inserted cs)
        → height x + length (inserted cs) < fuel
        → (z : Memory) × (run_all c fuel (cs ++ map searches vs) s
            ≡ ok (
              (answer_all value cs (inorder x)).0 ++ map (λ v. contains v (left cs (inorder x))) vs,
              z,
            ))
    run_searches fuel cs vs s x tree solid ready enough =
        let same = inserted-searches cs vs in
        let (z, y, run, grown, ordered) =
          calls_refine c value fuel (cs ++ map searches vs) s x tree solid (rw same ready)
            (rw same enough) in
        (z, run ∙ ap (λ bs. ok (bs, z)) (answer_all-searches cs vs (inorder x)))

    -- Over two ordered trees in memory with the same values and no object at NULL: calls of
    -- `insert` and `search` on the one and calls on the other, whose inserted objects are apart,
    -- not at NULL, unlinked, not in their tree, and hold the same values in some order, are
    -- followed by the same answers to any searches, where the fuel exceeds the height of each tree
    -- and the number of the objects that are inserted into it together.
    pub permute_lem :
        (fuel : ℕ) (cs cs' : List Call) (vs : List ℤ) (s s' : Memory) (x x' : Tree)
        → IsTree c s x
        → IsTree c s' x'
        → NonNull x
        → NonNull x'
        → inorder x ≡ inorder x'
        → Ready c value s x (inserted cs)
        → Ready c value s' x' (inserted cs')
        → Perm (map value (inserted cs)) (map value (inserted cs'))
        → height x + length (inserted cs) < fuel
        → height x' + length (inserted cs') < fuel
        → (bs : List Bool) × (bs' : List Bool) × (answer : List Bool) × (z : Memory) × (z' : Memory)
          × (run_all c fuel (cs ++ map searches vs) s ≡ ok (bs ++ answer, z))
          × (run_all c fuel (cs' ++ map searches vs) s' ≡ ok (bs' ++ answer, z'))
          × (length bs ≡ length cs)
          × (length bs' ≡ length cs')
          × (length answer ≡ length vs)
    unfolding left
    permute_lem fuel cs cs' vs s s' x x' tree tree' solid solid' same ready ready' perm enough
          enough' =
        let (z, run) = run_searches fuel cs vs s x tree solid ready enough in
        let (z', run') = run_searches fuel cs' vs s' x' tree' solid' ready' enough' in
        let alike : left cs' (inorder x') ≡ left cs (inorder x) =
          sym (
            ap (insert_each (map value (inserted cs))) same ∙ insert_each-Perm (inorder x') perm) in
        (
          (answer_all value cs (inorder x)).0,
          (answer_all value cs' (inorder x')).0,
          map (λ v. contains v (left cs (inorder x))) vs,
          z,
          z',
          run,
          run'
              ∙ ap
                  (λ xs.
                    ok ((answer_all value cs' (inorder x')).0 ++ map (λ v. contains v xs) vs, z'))
                  alike,
          length-answers value cs (inorder x),
          length-answers value cs' (inorder x'),
          length-map (λ v. contains v (left cs (inorder x))) vs,
        )
