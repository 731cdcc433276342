-- ===== src/RbTree/Sorted.antt =====
-- The values of a tree in order, and insertion into a sorted list without repetition.
use lkb.Common.{
  ℕ, ◌≡◌, refl, ◌∙◌, ap, sym, ℤ, lt_int, lt_int→lt, le→lt_int-false, Bool, true, false, not, ◌&&◌,
  ◌||◌, Bool-cases, inl, inr, if◌then◌else◌, List, [], ◌∷◌, ◌++◌, Option, none, some, arith,
}
use lkb.RbTree.Shape.{Tree, leaf, bin, IsOrdered, find, add, inorder}
use lkb.RbTree.Range.{AllBelow, AllAbove, Below-inorder, Above-inorder}

-- The list with a value at its place, and as it is where the value stands in it.
abbrev pub insert_sorted : ℤ → List ℤ → List ℤ
insert_sorted v [] = v ∷ []
insert_sorted v (x ∷ xs) =
    if lt_int v x then v ∷ x ∷ xs else if lt_int x v then x ∷ insert_sorted v xs else x ∷ xs

abbrev pub contains : ℤ → List ℤ → Bool
contains v [] = false
contains v (x ∷ xs) = (not (lt_int v x) && not (lt_int x v)) || contains v xs

insert_sorted-left :
    (v d : ℤ) (xs ys : List ℤ)
    → AllBelow d xs
    → lt_int v d ≡ true
    → insert_sorted v (xs ++ d ∷ ys) ≡ insert_sorted v xs ++ d ∷ ys
insert_sorted-left v d [] ys h low = rw low refl
insert_sorted-left v d (x ∷ xs) ys h low = ground (arith, insert_sorted-left v d xs ys h.1 low)

insert_sorted-right :
    (v d : ℤ) (xs ys : List ℤ)
    → AllBelow d xs
    → lt_int v d ≡ false
    → insert_sorted v (xs ++ d ∷ ys) ≡ xs ++ insert_sorted v (d ∷ ys)
unfolding lt_int
insert_sorted-right v d [] ys h high = refl
insert_sorted-right v d (x ∷ xs) ys h high = ground (arith, insert_sorted-right v d xs ys h.1 high)

contains-append :
    (v : ℤ) (xs ys : List ℤ) → contains v (xs ++ ys) ≡ (contains v xs || contains v ys)
contains-append v [] ys = refl
contains-append v (x ∷ xs) ys = ground (arith, contains-append v xs ys)

contains-AllBelow :
    (v d : ℤ) (xs : List ℤ) → AllBelow d xs → lt_int v d ≡ false → contains v xs ≡ false
unfolding lt_int
contains-AllBelow v d [] h high = refl
contains-AllBelow v d (x ∷ xs) h high = ground (arith, contains-AllBelow v d xs h.1 high)

contains-AllAbove :
    (v d : ℤ) (xs : List ℤ) → AllAbove d xs → lt_int d v ≡ false → contains v xs ≡ false
unfolding lt_int
contains-AllAbove v d [] h low = refl
contains-AllAbove v d (x ∷ xs) h low = ground (arith, contains-AllAbove v d xs h.1 low)

-- Whether the value is in the tree, by what `find` finds.
abbrev pub found : Option ℕ → Bool
found none = false
found (some u) = true

pub contains-find : (v : ℤ) (x : Tree) → IsOrdered x → contains v (inorder x) ≡ found (find v x)
unfolding find
contains-find v leaf o = refl
contains-find v (bin l u d r) o =
    let split = contains-append v (inorder l) (d ∷ inorder r) in
    elim (Bool-cases (lt_int v d)) [
      | inl low ↦
          let right =
            contains-AllAbove v d (inorder r) (Above-inorder d r o.1)
              (le→lt_int-false d v (omega (arith, lt_int→lt v d low))) in
          split ∙ rw (low, right, contains-find v l o.2) (ground arith)
      | inr high ↦
          let left = contains-AllBelow v d (inorder l) (Below-inorder d l o.0) high in
          elim (Bool-cases (lt_int d v)) [
            | inl up ↦ split ∙ rw (high, up, left, contains-find v r o.3) refl
            | inr same ↦ split ∙ rw (high, same, left) refl
          ]
    ]

-- The tree that a value may have been put into.
abbrev pub put : Option ℕ → ℕ → ℤ → Tree → Tree
put none t v x = add t v x
put (some u) t v x = x

put_left :
    (q : Option ℕ) (t : ℕ) (v : ℤ) (l : Tree) (u : ℕ) (d : ℤ) (r : Tree)
    → lt_int v d ≡ true
    → inorder (put q t v (bin l u d r)) ≡ inorder (put q t v l) ++ d ∷ inorder r
unfolding add
put_left none t v l u d r low = rw low refl
put_left (some w) t v l u d r low = refl

put_right :
    (q : Option ℕ) (t : ℕ) (v : ℤ) (l : Tree) (u : ℕ) (d : ℤ) (r : Tree)
    → lt_int v d ≡ false
    → inorder (put q t v (bin l u d r)) ≡ inorder l ++ d ∷ inorder (put q t v r)
unfolding add
put_right none t v l u d r high = rw high refl
put_right (some w) t v l u d r high = refl

pub inorder-put :
    (t : ℕ) (v : ℤ) (x : Tree)
    → IsOrdered x
    → inorder (put (find v x) t v x) ≡ insert_sorted v (inorder x)
unfolding find add
inorder-put t v leaf o = refl
inorder-put t v (bin l u d r) o = elim (Bool-cases (lt_int v d)) [
  | inl low ↦ rw low (
      put_left (find v l) t v l u d r low
      ∙ ap (λ xs. xs ++ d ∷ inorder r) (inorder-put t v l o.2)
      ∙ sym (insert_sorted-left v d (inorder l) (inorder r) (Below-inorder d l o.0) low))
  | inr high ↦ elim (Bool-cases (lt_int d v)) [
    | inl up ↦
        let here : insert_sorted v (d ∷ inorder r) ≡ d ∷ insert_sorted v (inorder r) =
          rw (high, up) refl in
        rw (high, up)
          (put_right (find v r) t v l u d r high
            ∙ ap (λ xs. inorder l ++ d ∷ xs) (inorder-put t v r o.3)
            ∙ ap (λ xs. inorder l ++ xs) (sym here)
            ∙ sym (insert_sorted-right v d (inorder l) (inorder r) (Below-inorder d l o.0) high))
    | inr same ↦
        let here : insert_sorted v (d ∷ inorder r) ≡ d ∷ inorder r = rw (high, same) refl in
        rw (high, same)
          (ap (λ xs. inorder l ++ xs) (sym here)
            ∙ sym (insert_sorted-right v d (inorder l) (inorder r) (Below-inorder d l o.0) high))
  ]
]
