-- ===== src/WorkQueueDedicated/Batch.antt =====
-- Fifteen runs of the work handler of work_queue_dedicated/code.c: fourteen objects, then a flush.
use lkb.Common.{
  ℕ, zero, suc, ◌+◌, ◌≡◌, ◌≢◌, ◌<◌, ◌≤◌, refl, ◌∙◌, ap, ap₂, sym, List, [], ◌∷◌, ◌++◌, map, has,
  ltb, lt→ltb, ◌==◌, false, arith,
}
use mathlib.Core.List.{append-nil, append_assoc}
use lkb.Kernel.ContainerOf.{ContainerOf}
use lkb.Kernel.ListHead.{ListHead, Injective, Injective-weaken, down, has-down_of_ne}
use lkb.WorkQueueDedicated.{
  Line, kmalloc_passed, flush, link_list, batch, State, print_list, deleting_lines, add_node,
  flush_list, work_handler,
}
use lkb.WorkQueueDedicated.Handler.{IsValid, delete_each-nil, work_handler-IsValid}

abbrev passed_lines : ℕ → List Line
passed_lines zero = []
passed_lines (suc i) = passed_lines i ++ kmalloc_passed i ∷ []

has-append_false :
    (a : ℕ) (xs ys : List ℕ) → has a xs ≡ false → has a ys ≡ false → has a (xs ++ ys) ≡ false
has-append_false a [] ys h k = k
has-append_false a (x ∷ xs) ys h k = ground (arith, has-append_false a xs ys)

module _ (c : ContainerOf) (l : ListHead) where
  open c use {member, container_of, container_of-member}
  open l use {entries}

  -- Runs of the handler in which `kmalloc` returns p 0, …, p (n - 1).
  handle_each : (ℕ → ℕ) → ℕ → State c l → State c l
  handle_each p zero s = s
  handle_each p (suc i) s = work_handler c l (p i) (handle_each p i s)

  add_lem : (p : ℕ) (s : State c l) → p ≢ 0 → s.moving_val < batch → record {
    moving : (work_handler c l p s).moving_val ≡ s.moving_val + 1;
    live : (work_handler c l p s).live ≡ p ∷ s.live;
    log : (work_handler c l p s).log ≡ s.log ++ kmalloc_passed s.moving_val ∷ [];
    held : (work_handler c l p s).held ≡ s.held;
  }
  unfolding work_handler add_node
  add_lem p s given room =
      let test = lt→ltb s.moving_val batch room in
      let some_object : (p == 0) ≡ false = ground arith in
      rw (test, some_object) (record { moving = refl; live = refl; log = refl; held = omega arith })

  values :
      (t : State c l)
      → IsValid c l t
      → (n : ℕ) → n ≤ t.moving_val
      → map (λ m. link_list (t.value (container_of m))) (down (λ i. member (t.f i)) n)
        ≡ map link_list (down (λ i. i) n)
  values t w zero le = refl
  values t w (suc n) le =
      ap₂ (λ x xs. x ∷ xs)
        (ap (λ q. link_list (t.value q)) (container_of-member (t.f n))
          ∙ ap link_list (w.valued n (omega arith)))
        (values t w n (omega arith))

  -- In a valid state with fourteen entries, a run of the handler prints the values 13 to 0, sets
  -- the counter to 0, empties the list and releases its lock; the allocated objects are those of
  -- before.
  pub flush_lem :
      (q : ℕ) (t : State c l)
      → IsValid c l t
      → t.moving_val ≡ batch
      → ((work_handler c l q t).moving_val ≡ 0)
        × (entries (work_handler c l q t).head ≡ [])
        × ((work_handler c l q t).live ≡ t.live)
        × ((work_handler c l q t).held ≡ t.held)
        × ((work_handler c l q t).log
            ≡ t.log ++ ((flush ∷ map link_list (down (λ i. i) batch)) ++ deleting_lines batch))
  unfolding work_handler flush_list print_list
  flush_lem q t w full =
      let test : ltb t.moving_val batch ≡ false = ground arith in
      let listed = w.listed ∙ ap (down (λ i. member (t.f i))) full in
      let shown =
        ap (map (λ m. link_list (t.value (container_of m)))) listed
        ∙ values t w batch (omega arith) in
      rw test (
        refl,
        delete_each-nil c l t.f batch t.head
            (Injective-weaken batch t.moving_val t.f (omega arith) w.apart) listed,
        refl,
        omega arith,
        ap (λ xs. t.log ++ ((flush ∷ xs) ++ deleting_lines batch)) shown,
      )

  record Filled (p : ℕ → ℕ) (n : ℕ) (s t : State c l) : Type 0 where
    valid : IsValid c l t
    moving : t.moving_val ≡ n
    live : t.live ≡ down p n ++ s.live
    log : t.log ≡ s.log ++ passed_lines n
    held : t.held ≡ s.held

  module _ (p : ℕ → ℕ) (s : State c l) (v : IsValid c l s) (start : s.moving_val ≡ 0)
      (given : (i : ℕ) → i < batch → p i ≢ 0) (apart : Injective batch p)
      (fresh : (i : ℕ) → i ≤ batch → has (p i) s.live ≡ false) where
    handle_each-Filled : (n : ℕ) → n ≤ batch → Filled p n s (handle_each p n s)
    unfolding handle_each
    handle_each-Filled zero le = record {
      valid = v;
      moving = start;
      live = refl;
      log = sym (append-nil s.log);
      held = refl;
    }
    handle_each-Filled (suc n) le =
        let before = handle_each-Filled n (omega arith) in
        let t = handle_each p n s in
        let out =
          has-append_false (p n) (down p n) s.live
            (has-down_of_ne p (p n) n
              (λ i lt same. omega (arith, apart n i (omega arith) (omega arith) same)))
            (fresh n (omega arith)) in
        let step = add_lem (p n) t (given n (omega arith)) (omega (arith, before.moving)) in
        record {
          valid = work_handler-IsValid c l (p n) t before.valid (rw (before.live) out);
          moving = omega (arith, step.moving, before.moving);
          live = step.live ∙ ap (λ xs. p n ∷ xs) before.live;
          log =
              step.log
              ∙ ap₂ (λ xs i. xs ++ kmalloc_passed i ∷ []) before.log before.moving
              ∙ append_assoc s.log (passed_lines n) (kmalloc_passed n ∷ []);
          held = step.held ∙ before.held;
        }

    -- From an empty list, fourteen runs in which `kmalloc` gives new distinct objects and one more
    -- run print the values 13 to 0 and leave the list empty, the counter at 0 and the lock as it
    -- was; all fourteen objects stay allocated.
    batch_lem :
        let r = handle_each p 15 s in
        (r.moving_val ≡ 0)
        × (entries r.head ≡ [])
        × (r.live ≡ down p batch ++ s.live)
        × (r.held ≡ s.held)
        × (r.log
            ≡ (s.log ++ passed_lines batch)
              ++ ((flush ∷ map link_list (down (λ i. i) batch)) ++ deleting_lines batch))
    unfolding handle_each
    batch_lem =
        let filled = handle_each-Filled batch (omega arith) in
        let (moved, empty, kept, held, log) =
          flush_lem (p batch) (handle_each p batch s) filled.valid filled.moving in
        (
          moved,
          empty,
          kept ∙ filled.live,
          held ∙ filled.held,
          log
              ∙ ap
                  (λ xs.
                    xs ++ ((flush ∷ map link_list (down (λ i. i) batch)) ++ deleting_lines batch))
                  filled.log,
        )
