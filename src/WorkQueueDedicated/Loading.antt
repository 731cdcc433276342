-- ===== src/WorkQueueDedicated/Loading.antt =====
-- `start`, `stops` and `my_interrupt` of work_queue_dedicated/code.c, a kernel call at a time: an
-- interrupt may come between any two of them while the line is requested.
use lkb.Common.{ℕ, ◌≡◌, refl, Bool, true, false, List, [], ◌∷◌}
use mathlib.Core.Path.{subst}
use lkb.Common.Steps.{Steps}

-- How far `start` or `stops` has come.
pub data Stage : Type 0 where
  unloaded : Stage
  refused : Stage
  requested : Stage
  created : Stage
  loaded : Stage
  line_freed : Stage
  stopped : Stage

-- One call `queue_work(wq, &work)`: the pointer, and whether `INIT_WORK` had been done.
pub record Call : Type 0 where
  pub queue : ℕ
  pub work_ready : Bool

-- `wq` (0 is NULL), whether `work` is initialised, whether `my_interrupt` is installed, the calls
-- of `queue_work`, the last first.
pub record Driver : Type 0 where
  pub stage : Stage
  pub wq : ℕ
  pub work_ready : Bool
  pub line_on : Bool
  pub calls : List Call

abbrev pub fresh : Driver
fresh = record { stage = unloaded; wq = 0; work_ready = false; line_on = false; calls = [] }

-- `my_interrupt`
unfoldable pub my_interrupt : Driver → Driver
my_interrupt d = record d { calls = record { queue = d.wq; work_ready = d.work_ready } ∷ d.calls }

pub data Step (d : Driver) : Driver → Type 0 where
  -- `request_irq` fails, and `start` returns -EIO.
  request_fails : d.stage ≡ unloaded → Step d (record d { stage = refused })
  request : d.stage ≡ unloaded → Step d (record d { stage = requested; line_on = true })
  -- `create_singlethread_workqueue` returns w; the code does not test it.
  create : (w : ℕ) → d.stage ≡ requested → Step d (record d { stage = created; wq = w })
  init_work : d.stage ≡ created → Step d (record d { stage = loaded; work_ready = true })
  -- `synchronize_irq` and `free_irq`
  free_irq : d.stage ≡ loaded → Step d (record d { stage = line_freed; line_on = false })
  -- `flush_workqueue` and `destroy_workqueue`
  destroy : d.stage ≡ line_freed → Step d (record d { stage = stopped })
  interrupt : d.line_on ≡ true → Step d (my_interrupt d)

abbrev pub Reach : Driver → Type 0
Reach d = Steps Step fresh d

-- The line, the queue and the work at each stage.
abbrev pub Agrees : Stage → Driver → Type 0
Agrees unloaded d = (d.line_on ≡ false) × (d.wq ≡ 0) × (d.work_ready ≡ false)
Agrees refused d = (d.line_on ≡ false) × (d.wq ≡ 0) × (d.work_ready ≡ false)
Agrees requested d = (d.line_on ≡ true) × (d.wq ≡ 0) × (d.work_ready ≡ false)
Agrees created d = (d.line_on ≡ true) × (d.work_ready ≡ false)
Agrees loaded d = (d.line_on ≡ true) × (d.work_ready ≡ true)
Agrees line_freed d = (d.line_on ≡ false) × (d.work_ready ≡ true)
Agrees stopped d = (d.line_on ≡ false) × (d.work_ready ≡ true)

pub Agrees-at : (d : Driver) {s : Stage} → d.stage ≡ s → Agrees d.stage d → Agrees s d
Agrees-at d e h = subst (λ s. Agrees s d) e h

interrupt-Agrees : (s : Stage) (d : Driver) → Agrees s d → Agrees s (my_interrupt d)
unfolding my_interrupt
interrupt-Agrees unloaded d h = h
interrupt-Agrees _ d h = h

pub Step-Agrees : {d e : Driver} → Step d e → Agrees d.stage d → Agrees e.stage e
unfolding my_interrupt
Step-Agrees {d} (request_fails e) h = Agrees-at d e h
Step-Agrees {d} (request e) h = let k = Agrees-at d e h in (refl, k.1, k.2)
Step-Agrees {d} (create w e) h = let k = Agrees-at d e h in (k.0, k.2)
Step-Agrees {d} (init_work e) h = let k = Agrees-at d e h in (k.0, refl)
Step-Agrees {d} (free_irq e) h = let k = Agrees-at d e h in (refl, k.1)
Step-Agrees {d} (destroy e) h = Agrees-at d e h
Step-Agrees {d} (interrupt on) h = interrupt-Agrees d.stage d h

-- The last call of `queue_work` in d, made at the stage s.
abbrev pub Queued : Stage → ℕ → Bool → Driver → Type 0
Queued s w r d =
    (d.stage ≡ s) × (my_interrupt d).calls ≡ record { queue = w; work_ready = r } ∷ d.calls
