-- ===== src/LinkList/Success.antt =====
-- What `start` of link_list/code.c prints and leaves, where every `kmalloc` succeeds.
use lkb.Common.{ℕ, suc, ◌≡◌, ◌≢◌, ◌<◌, ◌∙◌, ap, pos, [], ◌∷◌, ◌++◌, false, has, arith}
use lkb.Kernel.ContainerOf.{ContainerOf}
use lkb.Kernel.ListHead.{ListHead, Injective, down}
use lkb.LinkList.{State, allocate, on_list, use_list, start}
use lkb.LinkList.Entries.{allocate-Allocated}
use lkb.LinkList.Run.{lines, use_list-Used}

module _ (c : ContainerOf) (l : ListHead) (kmalloc : ℕ → ℕ) where
  -- Where `kmalloc` gives five distinct objects that were not allocated, none of them at the
  -- address of `temp`, `start` returns 0 and prints the five elements from the last to the first,
  -- the same with 1400 behind them, and the first four again; the allocated objects are those of
  -- before, and the list still has the entries of four objects, none of which is allocated.
  pub start_lem :
      (temp : ℕ) (s : State c l)
      → ((i : ℕ) → i < 5 → kmalloc i ≢ 0)
      → Injective 5 kmalloc
      → ((i : ℕ) → i < 5 → has (kmalloc i) s.live ≡ false)
      → ((i : ℕ) → i < 5 → temp ≢ kmalloc i)
      → (r : State c l) × (start c l kmalloc temp s ≡ (pos 0, r))
        × (r.log
            ≡ ((s.log ++ lines (400 ∷ 300 ∷ 200 ∷ 100 ∷ 0 ∷ []))
                ++ lines (400 ∷ 300 ∷ 200 ∷ 100 ∷ 0 ∷ 1400 ∷ []))
              ++ lines (400 ∷ 300 ∷ 200 ∷ 100 ∷ []))
        × (r.live ≡ s.live)
        × (l.entries r.mylist ≡ down (λ i. c.member (kmalloc (suc i))) 4)
        × ((i : ℕ) → i < 5 → has (kmalloc i) r.live ≡ false)
  unfolding start on_list
  start_lem temp s given apart fresh elsewhere =
      let s0 : State c l = record s { mylist = l.init_list_head s.mylist } in
      let (done, made) = allocate-Allocated c l kmalloc given apart 5 s0 (omega arith) in
      let t = (allocate c l kmalloc 5 s0).0 in
      let empty = ap l.entries made.list_kept ∙ l.entries-init s.mylist in
      let used = use_list-Used c l kmalloc given apart temp elsewhere s0 t empty made in
      let front =
        ap
          (λ xs.
            ((xs ++ lines (400 ∷ 300 ∷ 200 ∷ 100 ∷ 0 ∷ []))
              ++ lines (400 ∷ 300 ∷ 200 ∷ 100 ∷ 0 ∷ 1400 ∷ []))
            ++ lines (400 ∷ 300 ∷ 200 ∷ 100 ∷ []))
          made.log_kept in
      (
        use_list c l kmalloc temp t,
        rw done,
        used.logged ∙ front,
        used.freed,
        used.left,
        λ i lt. ap (has (kmalloc i)) used.freed ∙ fresh i lt,
      )
