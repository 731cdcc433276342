-- ===== src/WorkQueueDedicated/Account.antt =====
-- What n runs of the work handler of work_queue_dedicated/code.c have printed, against what they
-- have left: the failed and the successful calls of `kmalloc` and the flushes, counted in the
-- lines.
use lkb.Common.{
  ℕ, zero, suc, ◌+◌, ◌*◌, ◌≡◌, refl, List, [], ◌∷◌, ◌++◌, map, length, Bool-cases, inl, inr, ltb,
  ltb_false→le, ◌==◌, arith,
}
use lkb.Kernel.ContainerOf.{ContainerOf}
use lkb.Kernel.ListHead.{ListHead}
use lkb.WorkQueueDedicated.{
  Line, kmalloc_failed, kmalloc_passed, flush, link_list, deleting, batch, deleting_lines, State,
  print_list, add_node, flush_list, work_handler,
}
use lkb.WorkQueueDedicated.Handler.{IsValid}

-- 1 for a line of the kind that is counted.
abbrev pub is_failed : Line → ℕ
is_failed (kmalloc_failed n) = 1
is_failed (kmalloc_passed n) = 0
is_failed flush = 0
is_failed (link_list v) = 0
is_failed (deleting i) = 0

abbrev pub is_passed : Line → ℕ
is_passed (kmalloc_failed n) = 0
is_passed (kmalloc_passed n) = 1
is_passed flush = 0
is_passed (link_list v) = 0
is_passed (deleting i) = 0

abbrev pub is_flush : Line → ℕ
is_flush (kmalloc_failed n) = 0
is_flush (kmalloc_passed n) = 0
is_flush flush = 1
is_flush (link_list v) = 0
is_flush (deleting i) = 0

abbrev pub total : (Line → ℕ) → List Line → ℕ
total k [] = 0
total k (x ∷ xs) = k x + total k xs

total-append : (k : Line → ℕ) (xs ys : List Line) → total k (xs ++ ys) ≡ total k xs + total k ys
total-append k [] ys = omega arith
total-append k (x ∷ xs) ys = omega (arith, total-append k xs ys)

total-map :
    (k : Line → ℕ)
    → ((v : ℕ) → k (link_list v) ≡ 0)
    → (g : ℕ → ℕ) (ns : List ℕ) → total k (map (λ n. link_list (g n)) ns) ≡ 0
total-map k none g [] = refl
total-map k none g (n ∷ ns) = omega (arith, none (g n), total-map k none g ns)

total-deleting :
    (k : Line → ℕ) → ((i : ℕ) → k (deleting i) ≡ 0) → (n : ℕ) → total k (deleting_lines n) ≡ 0
total-deleting k none zero = refl
total-deleting k none (suc n) =
    omega
      (arith, none n, total-append k (deleting_lines n) (deleting n ∷ []), total-deleting k none n)

module _ (c : ContainerOf) (l : ListHead) where
  -- The account of n runs.
  pub record Balances (n : ℕ) (s : State c l) : Type 0 where
    pub runs : n ≡ total is_failed s.log + total is_passed s.log + total is_flush s.log
    pub added : total is_passed s.log ≡ batch * total is_flush s.log + s.moving_val
    pub kept : length s.live ≡ total is_passed s.log
    pub locked : s.held ≡ total is_failed s.log

  -- A flush prints no other line that is counted.
  total-flush :
      (k : Line → ℕ)
      → ((v : ℕ) → k (link_list v) ≡ 0)
      → ((i : ℕ) → k (deleting i) ≡ 0)
      → (s : State c l) → total k (flush_list c l s).log ≡ total k s.log + k flush
  unfolding flush_list print_list
  total-flush k a b s =
      let shown = map (λ n. link_list (s.value (c.container_of n))) (l.entries s.head) in
      omega (
        arith,
        total-append k s.log ((flush ∷ shown) ++ deleting_lines batch),
        total-append k shown (deleting_lines batch),
        total-map k a (λ n. s.value (c.container_of n)) (l.entries s.head),
        total-deleting k b batch,
      )

  pub work_handler-Balances :
      (p n : ℕ) (s : State c l)
      → IsValid c l s
      → Balances n s
      → Balances (suc n) (work_handler c l p s)
  unfolding work_handler add_node flush_list
  work_handler-Balances p n s v b = elim (Bool-cases (ltb s.moving_val batch)) [
    | inl room ↦ elim (Bool-cases (p == 0)) [
      | inl null ↦
          rw (room, null)
            (let more = λ (k : Line → ℕ). total-append k s.log (kmalloc_failed s.moving_val ∷ []) in
              let f = more is_failed in
              let g = more is_passed in
              let h = more is_flush in
              record {
                runs = omega (arith, b.runs);
                added = omega (arith, b.added);
                kept = omega (arith, b.kept);
                locked = omega (arith, b.locked);
              })
      | inr given ↦
          rw (room, given)
            (let more = λ (k : Line → ℕ). total-append k s.log (kmalloc_passed s.moving_val ∷ []) in
              let f = more is_failed in
              let g = more is_passed in
              let h = more is_flush in
              record {
                runs = omega (arith, b.runs);
                added = omega (arith, b.added);
                kept = omega (arith, b.kept);
                locked = omega (arith, b.locked);
              })
    ]
    | inr full ↦ rw full (
        let t : State c l = record s { held = s.held + 1 } in
        let low = ltb_false→le s.moving_val batch full in
        let f = total-flush is_failed (λ i. refl) (λ i. refl) t in
        let g = total-flush is_passed (λ i. refl) (λ i. refl) t in
        let h = total-flush is_flush (λ i. refl) (λ i. refl) t in
        record {
          runs = omega (arith, b.runs);
          added = omega (arith, b.added, v.bound);
          kept = omega (arith, b.kept);
          locked = omega (arith, b.locked);
        })
  ]
