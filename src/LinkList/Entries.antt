-- ===== src/LinkList/Entries.antt =====
-- The objects and the list of `start` of link_list/code.c, where every `kmalloc` succeeds.
use lkb.Common.{
  ℕ, zero, suc, ◌*◌, ◌≡◌, ◌≢◌, ◌<◌, ◌≤◌, refl, ◌∙◌, ap, sym, [], ◌∷◌, ◌++◌, true, false, ◌==◌,
  erase, has, arith, Distinct-last, erase-last, has-last,
}
use lkb.Kernel.ContainerOf.{ContainerOf}
use lkb.Kernel.ListHead.{
  ListHead, Injective, down, has-down, has-down_of_ne, down-Distinct, add_each, entries-add_each,
  erase-down_first,
}
use mathlib.Core.List.{append-nil}
use lkb.LinkList.{State, allocate}

module _ (c : ContainerOf) (l : ListHead) (kmalloc : ℕ → ℕ)
    (given : (i : ℕ) → i < 5 → kmalloc i ≢ 0) (apart : Injective 5 kmalloc) where
  open c use {member, container_of, container_of-member}
  open l use {Store, entries}

  pub record Allocated (n : ℕ) (s t : State c l) : Type 0 where
    pub list_kept : t.mylist ≡ s.mylist
    pub log_kept : t.log ≡ s.log
    pub live_grown : t.live ≡ down kmalloc n ++ s.live
    pub field_set : (i : ℕ) → i < n → t.a (kmalloc i) ≡ i * 100

  pub allocate-Allocated :
      (n : ℕ) (s : State c l)
      → n ≤ 5
      → ((allocate c l kmalloc n s).1 ≡ true) × Allocated n s (allocate c l kmalloc n s).0
  unfolding allocate
  allocate-Allocated zero s le = (
    refl,
    record {
      list_kept = refl;
      log_kept = refl;
      live_grown = refl;
      field_set = λ i lt. elim lt [ ];
    },
  )
  allocate-Allocated (suc n) s le =
      let (done, made) = allocate-Allocated n s (omega arith) in
      let got : (kmalloc n == 0) ≡ false = ground (arith, given n) in
      rw (done, got)
        (
          refl,
          record {
            list_kept = made.list_kept;
            log_kept = made.log_kept;
            live_grown = ap (λ xs. kmalloc n ∷ xs) made.live_grown;
            field_set = λ i lt. ground (arith, made.field_set i, apart i n);
          },
        )

  abbrev pub node : ℕ → ℕ
  node i = member (kmalloc i)

  node-Injective : Injective 5 node
  node-Injective i j a b same =
      apart i j a b
        (ground (arith, container_of-member (kmalloc i), container_of-member (kmalloc j)))

  module _ (temp : ℕ) (elsewhere : (i : ℕ) → i < 5 → temp ≢ kmalloc i) (s : Store)
      (empty : entries s ≡ []) where
    open l use {list_add_tail, list_del, entries-add_tail, entries-del}

    temp_free : has (member temp) (down node 5) ≡ false
    temp_free = has-down_of_ne node (member temp) 5 (λ i lt same.
        elsewhere i lt (ground (arith, container_of-member temp, container_of-member (kmalloc i))))

    pub five : entries (add_each l node 5 s) ≡ down node 5
    five = entries-add_each l node 5 s node-Injective empty

    pub six :
        entries (list_add_tail (member temp) (add_each l node 5 s))
        ≡ down node 5 ++ member temp ∷ []
    six =
        entries-add_tail (member temp) _ (rw five temp_free)
        ∙ ap (λ xs. xs ++ member temp ∷ []) five

    back :
        entries (list_del (member temp) (list_add_tail (member temp) (add_each l node 5 s)))
        ≡ down node 5
    back =
        entries-del (member temp) _
          (rw six (
            Distinct-last (member temp) (down node 5) (down-Distinct node 5 node-Injective)
              temp_free))
          (rw six (has-last (member temp) (down node 5)))
        ∙ ap (erase (member temp)) six
        ∙ erase-last (member temp) (down node 5) temp_free

    pub gone :
        entries (
          list_del
            (node 0)
            (list_del (member temp) (list_add_tail (member temp) (add_each l node 5 s))))
        ≡ down (λ i. node (suc i)) 4
    gone =
        entries-del (node 0) _ (rw back (down-Distinct node 5 node-Injective))
          (rw back (has-down node 0 5 (omega arith)))
        ∙ ap (erase (node 0)) back
        ∙ ap (erase (node 0)) (sym (append-nil (down node 5)))
        ∙ erase-down_first node 4 [] node-Injective
        ∙ append-nil (down (λ i. node (suc i)) 4)
