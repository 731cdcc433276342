-- ===== src/LinkList/Failure.antt =====
-- What `start` of link_list/code.c leaves where a `kmalloc` fails.
use lkb.Common.{
  ℕ, zero, suc, ◌≡◌, ◌≢◌, ◌<◌, refl, ◌∙◌, ap, negsuc, [], ◌∷◌, ◌++◌, false, true, ◌==◌, arith,
  ℕ_discrete,
}
use lkb.Kernel.ContainerOf.{ContainerOf}
use lkb.Kernel.ListHead.{ListHead, down}
use lkb.LinkList.{kmalloc_failed, State, allocate, on_list, start}

module _ (c : ContainerOf) (l : ListHead) (kmalloc : ℕ → ℕ) where
  record Made (n : ℕ) (s t : State c l) : Type 0 where
    mylist : t.mylist ≡ s.mylist
    log : t.log ≡ s.log
    live : t.live ≡ down kmalloc n ++ s.live

  allocate-Made :
      (n : ℕ) (s : State c l)
      → ((i : ℕ) → i < n → kmalloc i ≢ 0)
      → ((allocate c l kmalloc n s).1 ≡ true) × Made n s (allocate c l kmalloc n s).0
  unfolding allocate
  allocate-Made zero s given = (refl, record { mylist = refl; log = refl; live = refl })
  allocate-Made (suc n) s given =
      let (done, made) = allocate-Made n s (λ i lt. given i (omega arith)) in
      let got : (kmalloc n == 0) ≡ false = ground (arith, given n) in
      rw (done, got)
        (
          refl,
          record {
            mylist = made.mylist;
            log = made.log;
            live = ap (λ xs. kmalloc n ∷ xs) made.live;
          },
        )

  -- The loop stops at the first failure.
  record Failed (k : ℕ) (s t : State c l) : Type 0 where
    mylist : t.mylist ≡ s.mylist
    log : t.log ≡ s.log ++ kmalloc_failed k ∷ []
    live : t.live ≡ down kmalloc k ++ s.live

  allocate-Failed :
      (k : ℕ) (s : State c l)
      → ((i : ℕ) → i < k → kmalloc i ≢ 0)
      → kmalloc k ≡ 0
      → (n : ℕ) → k < n
      → ((allocate c l kmalloc n s).1 ≡ false) × Failed k s (allocate c l kmalloc n s).0
  unfolding allocate
  allocate-Failed k s given null zero lt = elim lt [ ]
  allocate-Failed k s given null (suc n) lt = elim (ℕ_discrete k n) [
    | yes e ↦
        let (done, made) = allocate-Made n s (λ i b. given i (omega arith)) in
        let missing : (kmalloc n == 0) ≡ true = ground arith in
        rw (done, missing)
          (refl, record { mylist = made.mylist; log = rw (made.log, e); live = rw e made.live })
    | no ne ↦
        let (stop, failed) = allocate-Failed k s given null n (omega arith) in
        rw stop (refl, failed)
  ]

  -- Where the first `kmalloc` that fails is that of element k, `start` returns -1 with an empty
  -- list; it prints only the failure, and the k objects allocated before it stay allocated.
  pub start_leaks :
      (k temp : ℕ) (s : State c l)
      → k < 5
      → ((i : ℕ) → i < k → kmalloc i ≢ 0)
      → kmalloc k ≡ 0
      → (r : State c l) × (start c l kmalloc temp s ≡ (negsuc 0, r))
        × (l.entries r.mylist ≡ [])
        × (r.log ≡ s.log ++ kmalloc_failed k ∷ [])
        × (r.live ≡ down kmalloc k ++ s.live)
  unfolding start on_list
  start_leaks k temp s lt given null =
      let s0 : State c l = record s { mylist = l.init_list_head s.mylist } in
      let (stop, failed) = allocate-Failed k s0 given null 5 lt in
      (
        (allocate c l kmalloc 5 s0).0,
        rw stop,
        ap l.entries failed.mylist ∙ l.entries-init s.mylist,
        failed.log,
        failed.live,
      )
