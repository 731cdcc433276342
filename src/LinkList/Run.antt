-- ===== src/LinkList/Run.antt =====
-- What `start` of link_list/code.c does after its allocations.
use lkb.Common.{
  ℕ, zero, suc, ◌*◌, ◌≡◌, ◌≢◌, ◌<◌, refl, ◌∙◌, ap, ap₂, List, [], ◌∷◌, ◌++◌, map, ◌==◌,
  if◌then◌else◌, erase, arith,
}
use lkb.Kernel.ContainerOf.{ContainerOf}
use lkb.Kernel.ListHead.{ListHead, Injective, down, add_each, erase-down_first, Injective-suc}
use lkb.LinkList.{Line, data_line, separator, State, print_list, set_a, free_each, use_list}
use lkb.LinkList.Entries.{Allocated, five, six, gone}

-- The lines of one `print_list`.
abbrev pub lines : List ℕ → List Line
lines vs = map data_line vs ++ separator ∷ []

module _ (c : ContainerOf) (l : ListHead) (kmalloc : ℕ → ℕ)
    (given : (i : ℕ) → i < 5 → kmalloc i ≢ 0) (apart : Injective 5 kmalloc) where
  open c use {member, container_of, container_of-member}
  open l use {Store, entries}

  abbrev node : ℕ → ℕ
  node i = member (kmalloc i)

  print_list-log :
      (t : State c l) (es : List ℕ)
      → entries t.mylist ≡ es
      → (print_list c l t).log
        ≡ t.log ++ (map (λ n. data_line (t.a (container_of n))) es ++ separator ∷ [])
  unfolding print_list
  print_list-log t es e =
      ap (λ xs. t.log ++ (map (λ n. data_line (t.a (container_of n))) xs ++ separator ∷ [])) e

  map-down :
      (a f v : ℕ → ℕ) (n : ℕ)
      → ((i : ℕ) → i < n → a (f i) ≡ v i)
      → map (λ m. data_line (a (container_of m))) (down (λ i. member (f i)) n)
        ≡ map data_line (down v n)
  map-down a f v zero h = refl
  map-down a f v (suc n) h =
      rw (container_of-member (f n), h n (omega arith))
        (ap (λ xs. data_line (v n) ∷ xs) (map-down a f v n (λ i lt. h i (omega arith))))

  free_each-live :
      (s t : State c l)
      → t.live ≡ down kmalloc 5 ++ s.live
      → (free_each c l kmalloc 5 t).live ≡ s.live
  unfolding free_each
  free_each-live s t e =
      ap
        (λ xs.
          erase (kmalloc 4)
            (erase (kmalloc 3) (erase (kmalloc 2) (erase (kmalloc 1) (erase (kmalloc 0) xs)))))
        e
      ∙ ap (λ xs. erase (kmalloc 4) (erase (kmalloc 3) (erase (kmalloc 2) (erase (kmalloc 1) xs))))
          (erase-down_first kmalloc 4 s.live apart)
      ∙ ap (λ xs. erase (kmalloc 4) (erase (kmalloc 3) (erase (kmalloc 2) xs)))
          (erase-down_first (λ i. kmalloc (suc i)) 3 s.live apart1)
      ∙ ap (λ xs. erase (kmalloc 4) (erase (kmalloc 3) xs))
          (erase-down_first (λ i. kmalloc (suc (suc i))) 2 s.live apart2)
      ∙ ap (erase (kmalloc 4)) (erase-down_first (λ i. kmalloc (suc (suc (suc i)))) 1 s.live apart3)
      ∙ erase-down_first (λ i. kmalloc (suc (suc (suc (suc i))))) 0 s.live apart4
    where
      apart1 : Injective 4 (λ i. kmalloc (suc i))
      apart1 = Injective-suc 4 kmalloc apart

      apart2 : Injective 3 (λ i. kmalloc (suc (suc i)))
      apart2 = Injective-suc 3 (λ i. kmalloc (suc i)) apart1

      apart3 : Injective 2 (λ i. kmalloc (suc (suc (suc i))))
      apart3 = Injective-suc 2 (λ i. kmalloc (suc (suc i))) apart2

      apart4 : Injective 1 (λ i. kmalloc (suc (suc (suc (suc i)))))
      apart4 = Injective-suc 1 (λ i. kmalloc (suc (suc (suc i)))) apart3

  free_each-kept :
      (n : ℕ) (t : State c l)
      → ((free_each c l kmalloc n t).log ≡ t.log) × ((free_each c l kmalloc n t).mylist ≡ t.mylist)
  unfolding free_each
  free_each-kept zero t = (refl, refl)
  free_each-kept (suc n) t = free_each-kept n t

  -- What `start` leaves, from a state `s` and the state `t` with five objects more.
  pub record Used (s t r : State c l) : Type 0 where
    pub logged :
        r.log
        ≡ ((t.log ++ lines (400 ∷ 300 ∷ 200 ∷ 100 ∷ 0 ∷ []))
            ++ lines (400 ∷ 300 ∷ 200 ∷ 100 ∷ 0 ∷ 1400 ∷ []))
          ++ lines (400 ∷ 300 ∷ 200 ∷ 100 ∷ [])
    pub freed : r.live ≡ s.live
    pub left : entries r.mylist ≡ down (λ i. member (kmalloc (suc i))) 4

  module _ (temp : ℕ) (elsewhere : (i : ℕ) → i < 5 → temp ≢ kmalloc i) (s t : State c l)
      (empty : entries t.mylist ≡ []) (made : Allocated c l kmalloc given apart 5 s t) where
    added : State c l
    added = record t { mylist = add_each l node 5 t.mylist }

    abbrev a' : ℕ → ℕ
    a' q = if q == temp then 1400 else t.a q

    a'-kept : (i : ℕ) → i < 5 → a' (kmalloc i) ≡ i * 100
    a'-kept i lt = ground (arith, made.field_set i, elsewhere i)

    first : (print_list c l added).log ≡ t.log ++ lines (400 ∷ 300 ∷ 200 ∷ 100 ∷ 0 ∷ [])
    unfolding added
    first =
        print_list-log added (down node 5)
          (five c l kmalloc given apart temp elsewhere t.mylist empty)
        ∙ ap (λ xs. t.log ++ (xs ++ separator ∷ []))
            (map-down t.a kmalloc (λ i. i * 100) 5 made.field_set)

    with_temp : State c l
    with_temp = record added {
      mylist = l.list_add_tail (member temp) (add_each l node 5 t.mylist);
      a = a';
      log = (print_list c l added).log;
    }

    second :
        (print_list c l with_temp).log
        ≡ (t.log ++ lines (400 ∷ 300 ∷ 200 ∷ 100 ∷ 0 ∷ []))
          ++ lines (400 ∷ 300 ∷ 200 ∷ 100 ∷ 0 ∷ 1400 ∷ [])
    unfolding with_temp
    second =
        print_list-log with_temp (down node 5 ++ member temp ∷ [])
          (six c l kmalloc given apart temp elsewhere t.mylist empty)
        ∙ ap (λ xs. (print_list c l added).log ++ (xs ++ separator ∷ [])) values
        ∙ ap (λ xs. xs ++ lines (400 ∷ 300 ∷ 200 ∷ 100 ∷ 0 ∷ 1400 ∷ [])) first
      where
        show : ℕ → Line
        show n = data_line (a' (container_of n))

        last : show (member temp) ≡ data_line 1400
        last = ground (arith, container_of-member temp)

        values :
            map show (down node 5 ++ member temp ∷ [])
            ≡ map data_line (400 ∷ 300 ∷ 200 ∷ 100 ∷ 0 ∷ 1400 ∷ [])
        values = ap₂ ◌++◌ (map-down a' kmalloc (λ i. i * 100) 5 a'-kept) (ap (λ x. x ∷ []) last)

    without : State c l
    without = record with_temp {
      mylist =
          l.list_del (node 0)
            (l.list_del (member temp) (l.list_add_tail (member temp) (add_each l node 5 t.mylist)));
      log = (print_list c l with_temp).log;
    }

    third :
        (print_list c l without).log
        ≡ ((t.log ++ lines (400 ∷ 300 ∷ 200 ∷ 100 ∷ 0 ∷ []))
            ++ lines (400 ∷ 300 ∷ 200 ∷ 100 ∷ 0 ∷ 1400 ∷ []))
          ++ lines (400 ∷ 300 ∷ 200 ∷ 100 ∷ [])
    unfolding without with_temp
    third =
        print_list-log without (down (λ i. node (suc i)) 4)
          (gone c l kmalloc given apart temp elsewhere t.mylist empty)
        ∙ ap (λ xs. (print_list c l with_temp).log ++ (xs ++ separator ∷ []))
            (map-down a' (λ i. kmalloc (suc i)) (λ i. suc i * 100) 4
              (λ i lt. a'-kept (suc i) (omega arith)))
        ∙ ap (λ xs. xs ++ lines (400 ∷ 300 ∷ 200 ∷ 100 ∷ [])) second

    pub use_list-Used : Used s t (use_list c l kmalloc temp t)
    unfolding use_list set_a print_list added with_temp without add_each
    use_list-Used = record {
      logged = (free_each-kept 5 (print_list c l without)).0 ∙ third;
      freed = free_each-live s (print_list c l without) made.live_grown;
      left =
          ap entries (free_each-kept 5 (print_list c l without)).1
          ∙ gone c l kmalloc given apart temp elsewhere t.mylist empty;
    }
