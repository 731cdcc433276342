-- ===== src/RbTree/Order.antt =====
-- Laws of the tree that `insert` builds: its order, its height, and what is found in it.
use lkb.Common.{
  ℕ, suc, ◌≡◌, ◌≢◌, ◌≤◌, inl, inr, ℤ, lt_int, lt_int→lt, lt_int-false, le→lt_int-false, eq_of_parts,
  ◌<ℤ◌, Bool-cases, none, some, arith, true, false,
}
use lkb.RbTree.Shape.{Tree, leaf, bin, height, Below, Above, IsOrdered, find, add}

lt_int_of_ne : (a b : ℤ) → a ≢ b → lt_int a b ≡ false → lt_int b a ≡ true
lt_int_of_ne a b ne h = elim (Bool-cases (lt_int b a)) [
  | inl e ↦ e
  | inr e ↦ absurd (ne (eq_of_parts a b (omega (arith, lt_int-false a b h, lt_int-false b a e))))
]

lt_int_irrefl : (a : ℤ) → lt_int a a ≡ false
lt_int_irrefl a = le→lt_int-false a a (omega arith)

pub add-Below : (t : ℕ) (v e : ℤ) (x : Tree) → Below e x → v <ℤ e → Below e (add t v x)
unfolding add
add-Below t v e leaf b h = (h, tt, tt)
add-Below t v e (bin l u d r) b h = elim (Bool-cases (lt_int v d)) [
  | inl low ↦ rw low (b.0, add-Below t v e l b.1 h, b.2)
  | inr high ↦ rw high (b.0, b.1, add-Below t v e r b.2 h)
]

add-Above : (t : ℕ) (v e : ℤ) (x : Tree) → Above e x → e <ℤ v → Above e (add t v x)
unfolding add
add-Above t v e leaf b h = (h, tt, tt)
add-Above t v e (bin l u d r) b h = elim (Bool-cases (lt_int v d)) [
  | inl low ↦ rw low (b.0, add-Above t v e l b.1 h, b.2)
  | inr high ↦ rw high (b.0, b.1, add-Above t v e r b.2 h)
]

-- A new value keeps the order.
pub add-IsOrdered :
    (t : ℕ) (v : ℤ) (x : Tree) → IsOrdered x → find v x ≡ none → IsOrdered (add t v x)
unfolding add find
add-IsOrdered t v leaf o new = (tt, tt, tt, tt)
add-IsOrdered t v (bin l u d r) o new = elim (Bool-cases (lt_int v d)) [
  | inl low ↦
      rw low (
        add-Below t v d l o.0 (lt_int→lt v d low),
        o.1,
        add-IsOrdered t v l o.2 (rw low at new),
        o.3,
      )
  | inr high ↦ elim (Bool-cases (lt_int d v)) [
    | inl up ↦ rw high (
      o.0,
      add-Above t v d r o.1 (lt_int→lt d v up),
      o.2,
      add-IsOrdered t v r o.3 (rw (high, up) at new),
    )
    | inr same ↦ let e : some u ≡ none = rw (high, same) at new in cc
  ]
]

pub height-add : (t : ℕ) (v : ℤ) (x : Tree) → height (add t v x) ≤ suc (height x)
unfolding add
height-add t v leaf = omega arith
height-add t v (bin l u d r) = ground (arith, height-add t v l, height-add t v r)

pub find-add_self : (t : ℕ) (v : ℤ) (x : Tree) → find v x ≡ none → find v (add t v x) ≡ some t
unfolding add find
find-add_self t v leaf new = rw (lt_int_irrefl v)
find-add_self t v (bin l u d r) new = ground (arith, find-add_self t v l, find-add_self t v r)

pub find-add_ne : (t : ℕ) (v w : ℤ) (x : Tree) → w ≢ v → find w (add t v x) ≡ find w x
unfolding add find
find-add_ne t v w leaf ne = ground (arith, lt_int_of_ne w v)
find-add_ne t v w (bin l u d r) ne = ground (arith, find-add_ne t v w l, find-add_ne t v w r)
