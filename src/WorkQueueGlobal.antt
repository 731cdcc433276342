-- ===== src/WorkQueueGlobal.antt =====
-- work_queue_global/code.c: `start` and `do_work_handler`, a step at a time in any order. What the
-- wait and the wake-up do is their documented behaviour: `start` tests the condition, enters the
-- queue and sleeps while it is false, and tests it again whenever the queue is woken up or a signal
-- comes; it uses the queue, which is a part of the object, until it has left the wait.
pub mod Safety
pub mod Progress
pub mod Asleep
mod Tests
use lkb.Common.{ℕ, ◌≡◌, ◌≢◌, Bool, true, false, List, [], ◌∷◌}

-- How far `start` has come.
pub data Stage : Type 0 where
  unloaded : Stage
  failed : Stage  -- it has returned -1
  scheduled : Stage
  announced : Stage
  awake : Stage  -- in the wait
  asleep : Stage  -- in the wait
  left : Stage
  loaded : Stage  -- it has returned 0

-- How far the work has come: it is not scheduled, is on the global queue, its handler has printed,
-- set the condition, woken the queue up, freed the object and returned.
pub data Work : Type 0 where
  none : Work
  queued : Work
  running : Work
  set : Work
  woke : Work
  freed : Work

-- What is printed.
pub data Line : Type 0 where
  kmalloc_failed : Line
  going_to_sleep : ℕ → Line
  woken_up : ℕ → Line
  inside : ℕ → Line

-- The globals, the field `data` of the object, whether the object is allocated, whether a signal
-- has ended the wait, the lines with the last first.
pub record System : Type 0 where
  pub stage : Stage
  pub work : Work
  pub condition : ℕ
  pub value : ℕ
  pub live : Bool
  pub interrupted : Bool
  pub log : List Line

abbrev pub fresh : System
fresh = record {
  stage = unloaded;
  work = none;
  condition = 0;
  value = 0;
  live = false;
  interrupted = false;
  log = [];
}

-- `wake_up_interruptible(&my_data->my_wq)`
abbrev pub wake_up : Stage → Stage
wake_up asleep = awake
wake_up unloaded = unloaded
wake_up failed = failed
wake_up scheduled = scheduled
wake_up announced = announced
wake_up awake = awake
wake_up left = left
wake_up loaded = loaded

pub data Step (s : System) : System → Type 0 where
  kmalloc_fails :
      s.stage ≡ unloaded → Step s (record s { stage = failed; log = kmalloc_failed ∷ s.log })
  -- `start` up to `schedule_work`
  schedule :
      s.stage ≡ unloaded
      → Step s (record s { stage = scheduled; work = queued; live = true; value = 1400 })
  announce :
      s.stage ≡ scheduled
      → Step s (record s { stage = announced; log = going_to_sleep s.condition ∷ s.log })
  -- `wait_event_interruptible`
  no_wait : s.stage ≡ announced → s.condition ≢ 0 → Step s (record s { stage = left })
  wait : s.stage ≡ announced → s.condition ≡ 0 → Step s (record s { stage = awake })
  sleep : s.stage ≡ awake → s.condition ≡ 0 → Step s (record s { stage = asleep })
  leave : s.stage ≡ awake → s.condition ≢ 0 → Step s (record s { stage = left })
  signal : s.stage ≡ asleep → Step s (record s { stage = left; interrupted = true })
  finish : s.stage ≡ left → Step s (record s { stage = loaded; log = woken_up s.condition ∷ s.log })
  -- `do_work_handler`
  run : s.work ≡ queued → Step s (record s { work = running; log = inside s.value ∷ s.log })
  set_condition : s.work ≡ running → Step s (record s { work = set; condition = 5 })
  wake : s.work ≡ set → Step s (record s { work = woke; stage = wake_up s.stage })
  free : s.work ≡ woke → Step s (record s { work = freed; live = false })
