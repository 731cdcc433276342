-- ===== src/WorkQueueDedicated/QueueTests.antt =====
-- work_queue_dedicated/code.c as a whole, in a run of concrete steps.
use lkb.Common.{ℕ, ◌∷◌, has, ◌+◌, ◌*◌, ◌≤◌, ◌≡◌, refl, [], length, true, false, arith}
use lkb.Common.Steps.{Steps, here, next}
use lkb.Kernel.Examples.{layout, sequence}
use lkb.WorkQueueDedicated.{work_handler, add_node}
use lkb.WorkQueueDedicated.Handler.{IsValid}
use lkb.WorkQueueDedicated.Account.{is_failed, is_passed, is_flush, total}
use lkb.WorkQueueDedicated.Loading.{stopped, loaded, my_interrupt, request, create, init_work}
use lkb.WorkQueueDedicated.Queue.{System, boot, Move, drive, interrupted, handled, account_lem}
use lkb.WorkQueueDedicated.Queue.Unload.{unload_lem}

abbrev off : System layout sequence
off = boot layout sequence (λ i. 0) (λ q. 0) []

-- Loaded, with the queue at 9.
abbrev idle : System layout sequence
idle = record off {
  driver = record { stage = loaded; wq = 9; work_ready = true; line_on = true; calls = [] };
}

idle-Steps : Steps (Move layout sequence) off idle
idle-Steps =
    next
      (next (next here (drive (request refl) refl (λ e. cc)))
        (drive (create 9 refl) refl (λ e. cc)))
      (drive (init_work refl) refl (λ e. cc))

-- The handler has run for one interrupt and added an object, and a second interrupt has come.
abbrev asked : System layout sequence
asked = record {
  driver = my_interrupt (my_interrupt idle.driver);
  state = work_handler layout sequence 100 idle.state;
  pending = true;
  runs = 1;
}

asked-Steps : Steps (Move layout sequence) off asked
unfolding my_interrupt
asked-Steps =
    next (next (next idle-Steps (interrupted refl (omega arith) refl)) (handled 100 refl refl))
      (interrupted refl (omega arith) refl)

account_lem_example :
    let passed = total is_passed asked.state.log in
    let flushes = total is_flush asked.state.log in
    IsValid layout sequence asked.state
    × (1 ≡ total is_failed asked.state.log + passed + flushes)
    × (passed ≡ 14 * flushes + asked.state.moving_val)
    × (length asked.state.live ≡ passed)
    × (2 ≤ length asked.driver.calls)
    × (asked.driver.stage ≡ stopped
        → (asked.pending ≡ false) × ((y : System layout sequence) → ¬ Move layout sequence asked y))
account_lem_example = account_lem layout sequence (λ i. 0) (λ q. 0) [] asked refl asked-Steps

unload_lem_example :
    ((y : System layout sequence)
      → Steps (Move layout sequence) asked y
      → length y.driver.calls ≡ 2
      → y.driver.stage ≡ stopped
      → (y.pending ≡ false) × (y.runs ≡ 2))
    × ((p : ℕ)
        → has p (100 ∷ []) ≡ false
        → (y : System layout sequence) × Steps (Move layout sequence) asked y
          × (y.driver.stage ≡ stopped)
          × (y.driver.calls ≡ asked.driver.calls)
          × (y.state ≡ work_handler layout sequence p asked.state))
unfolding my_interrupt work_handler add_node
unload_lem_example =
    unload_lem layout sequence (λ i. 0) (λ q. 0) [] asked refl asked-Steps refl (omega arith)
