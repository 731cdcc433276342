-- ===== src/WaitQueue.antt =====
-- wait_queue/code.c: `start` and the thread `mfoo`, a step at a time in any order. What
-- `wait_event_interruptible` and `wake_up_interruptible` do is their documented behaviour: the
-- thread tests its condition, sleeps where it is false, and tests it again whenever the queue is
-- woken up; no wake-up is lost between the test and the sleep. No signal reaches the thread.
pub mod Order
pub mod Progress
mod Tests
use lkb.Common.{ℕ, zero, suc, ◌<◌, ◌≡◌, List, [], ◌∷◌}

-- How far `start` has come.
pub data Stage : Type 0 where
  unloaded : Stage
  failed : Stage  -- it has returned -1
  created : Stage
  woken : Stage
  cleared : Stage  -- condition is 0
  announced : Stage
  attempted : Stage
  forced : Stage  -- condition is 1
  announced_again : Stage
  attempted_again : Stage
  paused : Stage
  loaded : Stage  -- it has returned 0

-- How far `mfoo` has come: the thread does not exist, is stopped, is about to run, is awake in its
-- wait, sleeps there, has returned.
pub data Thread : Type 0 where
  none : Thread
  stopped : Thread
  ready : Thread
  awake : Thread
  asleep : Thread
  ended : Thread

-- What is printed.
pub data Line : Type 0 where
  kthread_failed : Line
  waiting : Line
  attempt_1 : Line
  attempt_2 : Line
  wake_up_done : Line
  done : Line
  running : Line
  running_again : Line

-- The lines stand with the last first.
pub record System : Type 0 where
  pub stage : Stage
  pub thread : Thread
  pub condition : ℕ
  pub log : List Line

abbrev pub fresh : System
fresh = record { stage = unloaded; thread = none; condition = 0; log = [] }

-- `wake_up_interruptible(&wq)`
abbrev pub wake_up : Thread → Thread
wake_up asleep = awake
wake_up none = none
wake_up stopped = stopped
wake_up ready = ready
wake_up awake = awake
wake_up ended = ended

pub data Step (s : System) : System → Type 0 where
  create_fails :
      s.stage ≡ unloaded → Step s (record s { stage = failed; log = kthread_failed ∷ s.log })
  create :
      s.stage ≡ unloaded
      → Step s (record s { stage = created; thread = stopped; log = waiting ∷ s.log })
  -- `wake_up_process(mytask)`
  wake_process : s.stage ≡ created → Step s (record s { stage = woken; thread = ready })
  -- `condition = 0`
  clear : s.stage ≡ woken → Step s (record s { stage = cleared; condition = 0 })
  announce : s.stage ≡ cleared → Step s (record s { stage = announced; log = attempt_1 ∷ s.log })
  attempt : s.stage ≡ announced → Step s (record s { stage = attempted; thread = wake_up s.thread })
  -- `condition = 1`
  force : s.stage ≡ attempted → Step s (record s { stage = forced; condition = 1 })
  announce_again :
      s.stage ≡ forced → Step s (record s { stage = announced_again; log = attempt_2 ∷ s.log })
  attempt_again :
      s.stage ≡ announced_again
      → Step s (record s { stage = attempted_again; thread = wake_up s.thread })
  pause :
      s.stage ≡ attempted_again → Step s (record s { stage = paused; log = wake_up_done ∷ s.log })
  finish : s.stage ≡ paused → Step s (record s { stage = loaded; log = done ∷ s.log })
  -- `mfoo`
  run : s.thread ≡ ready → Step s (record s { thread = awake; log = running ∷ s.log })
  sleep : s.thread ≡ awake → s.condition ≡ 0 → Step s (record s { thread = asleep })
  pass :
      s.thread ≡ awake
      → 0 < s.condition
      → Step s (record s { thread = ended; log = running_again ∷ s.log })
