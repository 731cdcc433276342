-- ===== src/Rcu/Start.antt =====
-- `start` of rcu/code.c, and the grace period after it.
use lkb.Common.{
  ℕ, ◌≡◌, ◌≢◌, ◌<◌, refl, ◌∙◌, ap, pos, negsuc, [], ◌∷◌, ◌++◌, false, ◌==◌, erase, some, arith,
}
use lkb.Kernel.ContainerOf.{ContainerOf}
use lkb.Kernel.ListHead.{Injective, down}
use lkb.Kernel.RcuList.{RcuList}
use lkb.Rcu.{
  ◌>>=◌, malloc_failed, deleted, State, add_each, start, end, destroy_old_structure, call_each,
  grace_period,
}
use lkb.Rcu.Elements.{fields, fields_lem, allocate_lem, allocate_fails, entries-add_each}
use lkb.Rcu.Run.{lines, use_list-Used}

module _ (c : ContainerOf) (l : RcuList) where
  open c use {member}
  open l use {head, entries}

  pub grace_period_one :
      (h : ContainerOf) (p : ℕ) (r : State c l)
      → p ≢ 0
      → r.queued ≡ p ∷ []
      → grace_period c l h r
        ≡ record r { queued = []; log = r.log ++ deleted (r.data_of p) ∷ []; live = erase p r.live }
  unfolding grace_period call_each destroy_old_structure
  grace_period_one h p r some_object e =
      let test : (p == 0) ≡ false = ground arith in
      ap (λ ps. call_each c l h ps (record r { queued = [] })) e
      ∙ rw (h.container_of-member p, test) refl

  -- Where `kmalloc` gives five distinct objects, the list is empty and the global `new_node` is
  -- none of the objects, `start` returns 0 with more rounds of fuel than entries. It prints the
  -- five elements, the same with 1400 for 10, and these without 20; the list then has the entries
  -- of the objects 4 and 3, of `new_node` and of object 0, the lock is as it was, and all five
  -- objects are allocated. After the grace period the object that held 20 is destroyed and its data
  -- printed; the one that held 10, which is not in the list either, stays allocated. Where the
  -- grace period ends only after `end`, the module is unloaded with that destruction still queued;
  -- `end` frees none of the objects.
  pub run_lem :
      (h : ContainerOf) (kmalloc : ℕ → ℕ) (new fuel : ℕ) (s : State c l)
      → ((i : ℕ) → i < 5 → kmalloc i ≢ 0)
      → Injective 5 kmalloc
      → ((i : ℕ) → i < 5 → new ≢ kmalloc i)
      → ((i : ℕ) → i < 5 → member (kmalloc i) ≢ head)
      → member new ≢ head
      → entries s.list ≡ []
      → s.queued ≡ []
      → 5 < fuel
      → (r : State c l) × (start c l kmalloc fuel new s ≡ some (pos 0, r))
        × (r.log
            ≡ ((s.log ++ lines 0 (40 ∷ 30 ∷ 20 ∷ 10 ∷ 0 ∷ []))
                ++ lines 1 (40 ∷ 30 ∷ 20 ∷ 1400 ∷ 0 ∷ []))
              ++ lines 2 (40 ∷ 30 ∷ 1400 ∷ 0 ∷ []))
        × (entries r.list
            ≡ member (kmalloc 4) ∷ member (kmalloc 3) ∷ member new ∷ member (kmalloc 0) ∷ [])
        × (r.held ≡ s.held)
        × (r.live ≡ down kmalloc 5 ++ s.live)
        × ((grace_period c l h r).log ≡ r.log ++ deleted 20 ∷ [])
        × ((grace_period c l h r).live ≡ kmalloc 4 ∷ kmalloc 3 ∷ kmalloc 1 ∷ kmalloc 0 ∷ s.live)
        × ((end c l r).queued ≡ kmalloc 2 ∷ [])
        × ((end c l r).live ≡ down kmalloc 5 ++ s.live)
  unfolding start end
  run_lem h kmalloc new fuel s given apart elsewhere inside inside' empty none_queued enough =
      let t : State c l = record s {
        live = down kmalloc 5 ++ s.live;
        data_of = fields kmalloc 5 s.data_of;
        list = add_each c l kmalloc 5 s.list;
      } in
      let listed = entries-add_each c l kmalloc 5 s.list apart inside empty in
      let (r, runs, used) =
        use_list-Used c l kmalloc apart new elsewhere inside' fuel enough t listed
          (λ i lt. fields_lem kmalloc 5 s.data_of i apart lt) in
      let queued : r.queued ≡ kmalloc 2 ∷ [] =
        used.queued ∙ ap (λ ps. kmalloc 2 ∷ ps) none_queued in
      let after = grace_period_one h (kmalloc 2) r (given 2 (omega arith)) queued in
      (
        r,
        rw (allocate_lem c l kmalloc 5 s given) (ap (λ m. m >>= λ u. some (pos 0, u)) runs),
        used.logged,
        used.listed,
        used.held_kept,
        used.live_kept,
        ap (λ u. u.log) after ∙ ap (λ v. r.log ++ deleted v ∷ []) (used.field_kept 2 (omega arith)),
        ap (λ u. u.live) after
            ∙ ap (erase (kmalloc 2)) used.live_kept
            ∙ ground (arith, apart 2 4, apart 2 3),
        queued,
        used.live_kept,
      )

  -- Where the first `kmalloc` that fails is that of element k, `start` returns -1 and leaves the
  -- list as it was; it prints only the failure, and the k objects allocated before it stay
  -- allocated.
  pub run_fails :
      (kmalloc : ℕ → ℕ) (new fuel k : ℕ) (s : State c l)
      → k < 5
      → ((i : ℕ) → i < k → kmalloc i ≢ 0)
      → kmalloc k ≡ 0
      → (r : State c l) × (start c l kmalloc fuel new s ≡ some (negsuc 0, r))
        × (r.list ≡ s.list)
        × (r.live ≡ down kmalloc k ++ s.live)
        × (r.log ≡ s.log ++ malloc_failed k ∷ [])
  unfolding start
  run_fails kmalloc new fuel k s lt given null = (
    record s {
      live = down kmalloc k ++ s.live;
      data_of = fields kmalloc k s.data_of;
      log = s.log ++ malloc_failed k ∷ [];
    },
    rw (allocate_fails c l kmalloc k 5 s lt given null) refl,
    refl,
    refl,
    refl,
  )
