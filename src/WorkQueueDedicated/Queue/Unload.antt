-- ===== src/WorkQueueDedicated/Queue/Unload.antt =====
-- The unload of work_queue_dedicated/code.c: what `flush_workqueue` waits for.
use lkb.Common.{
  ℕ, ◌+◌, ◌≤◌, ◌≡◌, ◌≢◌, refl, inl, inr, false, length, has, [], Bool-cases, if◌then◌else◌, arith,
}
use lkb.Common.Steps.{Steps, here, next, Steps-inv, Steps-trans}
use lkb.Kernel.ContainerOf.{ContainerOf}
use lkb.Kernel.ListHead.{ListHead}
use lkb.WorkQueueDedicated.{work_handler}
use lkb.WorkQueueDedicated.Loading.{loaded, line_freed, stopped, free_irq, my_interrupt}
use lkb.WorkQueueDedicated.Queue.{
  System, boot, Move, drive, stop, interrupted, handled, Steps-Sound,
}

module _ (c : ContainerOf) (l : ListHead) where
  -- Without an interrupt, the runs of the handler and the pending work are together constant.
  record Since (x y : System c l) : Type 0 where
    grown : length x.driver.calls ≤ length y.driver.calls
    settled :
        length y.driver.calls ≡ length x.driver.calls
        → y.runs + (if y.pending then 1 else 0) ≡ x.runs + (if x.pending then 1 else 0)

  Move-Since : (x y z : System c l) → Since x y → Move c l y z → Since x z
  unfolding my_interrupt
  Move-Since x y _ v (drive st same other) = record {
    grown = rw same v.grown;
    settled = rw same v.settled;
  }
  Move-Since x y _ v (stop e made idle) = record { grown = v.grown; settled = v.settled }
  Move-Since x y _ v (interrupted e made on) = record {
    grown = omega (arith, v.grown);
    settled = λ same. omega (arith, v.grown);
  }
  Move-Since x y _ v (handled p some_work out) = record {
    grown = v.grown;
    settled = λ same. ground (arith, v.settled same);
  }

  Steps-Since : (x y : System c l) → Steps (Move c l) x y → Since x y
  Steps-Since x y r =
      Steps-inv (Move c l) (Since x) (Move-Since x) x y
        (record { grown = omega arith; settled = λ e. refl }) r

  -- From every reachable state in which the module is loaded and its queue exists: every run without an
  -- interrupt that ends with the module unloaded, and with any results of `kmalloc`, runs the handler
  -- once more exactly if work is pending, so that none is lost and none is left. There is such a run
  -- whatever address that is not allocated `kmalloc` would return, and what it leaves is what one run
  -- of the handler leaves if work is pending, and else what was there.
  pub unload_lem :
      (f value : ℕ → ℕ) (h : l.Store) (x : System c l)
      → l.entries h ≡ []
      → Steps (Move c l) (boot c l f value h) x
      → x.driver.stage ≡ loaded
      → x.driver.wq ≢ 0
      → ((y : System c l)
          → Steps (Move c l) x y
          → length y.driver.calls ≡ length x.driver.calls
          → y.driver.stage ≡ stopped
          → (y.pending ≡ false) × (y.runs ≡ x.runs + (if x.pending then 1 else 0)))
        × ((p : ℕ)
            → has p x.state.live ≡ false
            → (y : System c l) × Steps (Move c l) x y
              × (y.driver.stage ≡ stopped)
              × (y.driver.calls ≡ x.driver.calls)
              × (y.state ≡ (if x.pending then work_handler c l p x.state else x.state)))
  unload_lem f value h x empty r e made = (
    λ y s same end.
        let v = Steps-Sound c l f value h y empty (Steps-trans (Move c l) r s) in
        let idle = v.idle end in
        let all = (Steps-Since x y s).settled same in (idle, ground (arith, idle, all)),
    λ p out.
        let u : System c l = record x {
          driver = record x.driver { stage = line_freed; line_on = false };
        } in
        let freed : Steps (Move c l) x u = next here (drive (free_irq e) refl (λ k. cc)) in
        elim (Bool-cases x.pending) [
          | inl some_work ↦ (
            _,
            next (next freed (handled p some_work out)) (stop refl made refl),
            refl,
            refl,
            rw some_work refl,
          )
          | inr idle ↦ (_, next freed (stop refl made idle), refl, refl, rw idle refl)
        ],
  )
