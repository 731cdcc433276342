-- ===== src/Rcu/Elements.antt =====
-- The first two loops of `start` of rcu/code.c.
use lkb.Common.{
  ℕ, zero, suc, ◌*◌, ◌≡◌, ◌≢◌, ◌<◌, refl, ◌∙◌, ap, [], ◌∷◌, ◌++◌, true, false, ◌==◌, if◌then◌else◌,
  arith, ℕ_discrete,
}
use mathlib.Core.Path.{subst}
use lkb.Kernel.ContainerOf.{ContainerOf}
use lkb.Kernel.ListHead.{Injective, Injective-weaken, down, has-down_next}
use lkb.Kernel.RcuList.{RcuList}
use lkb.Rcu.{State, malloc_failed, allocate, add_each}

-- The field `data` after n rounds of the first loop.
abbrev pub fields : (ℕ → ℕ) → ℕ → (ℕ → ℕ) → ℕ → ℕ
fields kmalloc zero f q = f q
fields kmalloc (suc i) f q = if q == kmalloc i then 10 * i else fields kmalloc i f q

pub fields_lem :
    (kmalloc : ℕ → ℕ) (n : ℕ) (f : ℕ → ℕ) (i : ℕ)
    → Injective n kmalloc
    → i < n
    → fields kmalloc n f (kmalloc i) ≡ 10 * i
fields_lem kmalloc zero f i apart lt = elim lt [ ]
fields_lem kmalloc (suc n) f i apart lt =
    let weak = Injective-weaken n (suc n) kmalloc (omega arith) apart in
    ground (arith, apart i n, fields_lem kmalloc n f i weak)

module _ (c : ContainerOf) (l : RcuList) (kmalloc : ℕ → ℕ) where
  open c use {member, container_of, container_of-member}
  open l use {Store, head, entries}

  abbrev filled : ℕ → State c l → State c l
  filled n s = record s { live = down kmalloc n ++ s.live; data_of = fields kmalloc n s.data_of }

  pub allocate_lem :
      (n : ℕ) (s : State c l)
      → ((i : ℕ) → i < n → kmalloc i ≢ 0)
      → allocate c l kmalloc n s
        ≡ (record s { live = down kmalloc n ++ s.live; data_of = fields kmalloc n s.data_of }, true)
  unfolding allocate
  allocate_lem zero s given = refl
  allocate_lem (suc n) s given =
      let got : (kmalloc n == 0) ≡ false = ground (arith, given n) in
      rw (allocate_lem n s (λ i lt. given i (omega arith)), got) refl

  pub allocate_fails :
      (k n : ℕ) (s : State c l)
      → k < n
      → ((i : ℕ) → i < k → kmalloc i ≢ 0)
      → kmalloc k ≡ 0
      → allocate c l kmalloc n s
        ≡ (record (filled k s) { log = s.log ++ malloc_failed k ∷ [] }, false)
  unfolding allocate
  allocate_fails k zero s lt given null = elim lt [ ]
  allocate_fails k (suc n) s lt given null = elim (ℕ_discrete k n) [
    | no other ↦ rw (allocate_fails k n s (omega arith) given null) refl
    | yes same ↦
        subst
          (λ m.
            allocate c l kmalloc (suc m) s
            ≡ (record (filled k s) { log = s.log ++ malloc_failed k ∷ [] }, false))
          same
          (let here : (kmalloc k == 0) ≡ true = ground arith in
            rw (allocate_lem k s given, here) refl)
  ]

  pub entries-add_each :
      (n : ℕ) (g : Store)
      → Injective n kmalloc
      → ((i : ℕ) → i < n → member (kmalloc i) ≢ head)
      → entries g ≡ []
      → entries (add_each c l kmalloc n g) ≡ down (λ i. member (kmalloc i)) n
  unfolding add_each
  entries-add_each zero g apart inside empty = empty
  entries-add_each (suc n) g apart inside empty =
      let weak = Injective-weaken n (suc n) kmalloc (omega arith) apart in
      let ih = entries-add_each n g weak (λ i lt. inside i (omega arith)) empty in
      l.entries-add (member (kmalloc n)) (add_each c l kmalloc n g) (inside n (omega arith))
        (rw ih (has-down_next (λ i. member (kmalloc i)) n (node-Injective (suc n) apart)))
      ∙ ap (λ xs. member (kmalloc n) ∷ xs) ih
    where
      node-Injective : (n : ℕ) → Injective n kmalloc → Injective n (λ i. member (kmalloc i))
      node-Injective n apart i j a b same =
          apart i j a b
            (ground (arith, container_of-member (kmalloc i), container_of-member (kmalloc j)))
