-- ===== src/Thread/Stop.antt =====
-- thread01/code.c: the threads beside `start_mythread` and `km_exit`, a step at a time in any
-- order, after `km_init` has created them and made the list. What the kernel does is its documented
-- behaviour: a thread that has been created does not run before it is woken up; `kthread_stop`
-- makes `kthread_should_stop` true for its thread, wakes it up, and returns when it has ended, with
-- its result, or with -EINTR where its function has never run.
pub mod Count
pub mod Change
pub mod Invariant
pub mod Safety
pub mod Progress
mod Tests
use lkb.Common.{ℕ, suc, ◌≡◌, ◌==◌, if◌then◌else◌, Bool, true, false, List, [], ◌∷◌, has}

-- How far a thread has come: it is created, may run, is in the loop of `mfoo`, has returned 0 from
-- `mfoo`, has ended without a run of it.
pub data Status : Type 0 where
  created : Status
  ready : Status
  looping : Status
  returned : Status
  refused : Status

-- How far the module has come: in the loop of `start_mythread`, loaded, in the first loop of
-- `km_exit`, there in `kthread_stop`, after `km_exit` has freed the objects.
pub data Stage : Type 0 where
  waking : Stage
  loaded : Stage
  stopping : Stage
  blocked : Stage
  freed : Stage

-- What is printed, but for the lines of `start_mythread`.
pub data Line : Type 0 where
  running : ℕ → Line
  thread_stopped : ℕ → Line

-- The entries that the loop has still to go through, the threads, for which `kthread_should_stop`
-- is true, the counter `i` of `km_exit`, the lines with the last first.
pub record System : Type 0 where
  pub stage : Stage
  pub rest : List ℕ
  pub status : ℕ → Status
  pub should_stop : ℕ → Bool
  pub stopped : ℕ
  pub log : List Line

abbrev pub set_at {ℓ} : {A : Type ℓ} → (ℕ → A) → ℕ → A → ℕ → A
set_at f t a u = if u == t then a else f u

-- `wake_up_process`
abbrev pub wake_up : Status → Status
wake_up created = ready
wake_up ready = ready
wake_up looping = looping
wake_up returned = returned
wake_up refused = refused

-- The list of the threads `ts`, before `start_mythread`.
abbrev pub fresh : List ℕ → System
fresh ts = record {
  stage = waking;
  rest = ts;
  status = λ t. created;
  should_stop = λ t. false;
  stopped = 0;
  log = [];
}

module _ (ts : List ℕ) where
  pub data Step (s : System) : System → Type 0 where
    wake :
        (t : ℕ) (us : List ℕ)
        → s.stage ≡ waking
        → s.rest ≡ t ∷ us
        → Step s (record s { rest = us; status = set_at s.status t (wake_up (s.status t)) })
    load : s.stage ≡ waking → s.rest ≡ [] → Step s (record s { stage = loaded })
    -- `km_exit`
    unload : s.stage ≡ loaded → Step s (record s { stage = stopping; rest = ts })
    -- `kthread_stop`, up to its wait and after it
    ask :
        (t : ℕ) (us : List ℕ)
        → s.stage ≡ stopping
        → s.rest ≡ t ∷ us
        → Step s (record s {
          stage = blocked;
          status = set_at s.status t (wake_up (s.status t));
          should_stop = set_at s.should_stop t true;
        })
    reap :
        (t : ℕ) (us : List ℕ)
        → s.stage ≡ blocked
        → s.rest ≡ t ∷ us
        → s.status t ≡ returned
        → Step s (record s {
          stage = stopping;
          rest = us;
          stopped = suc s.stopped;
          log = thread_stopped s.stopped ∷ s.log;
        })
    reap_refused :
        (t : ℕ) (us : List ℕ)
        → s.stage ≡ blocked
        → s.rest ≡ t ∷ us
        → s.status t ≡ refused
        → Step s (record s { stage = stopping; rest = us })
    -- The loop of `kfree`.
    free : s.stage ≡ stopping → s.rest ≡ [] → Step s (record s { stage = freed })
    -- A thread begins to run: `mfoo`, unless it is asked to stop.
    begin :
        (t : ℕ)
        → has t ts ≡ true
        → s.status t ≡ ready
        → s.should_stop t ≡ false
        → Step s (record s { status = set_at s.status t looping })
    refuse :
        (t : ℕ)
        → has t ts ≡ true
        → s.status t ≡ ready
        → s.should_stop t ≡ true
        → Step s (record s { status = set_at s.status t refused })
    -- A round of the loop of `mfoo`, and its end.
    round :
        (t : ℕ)
        → has t ts ≡ true
        → s.status t ≡ looping
        → s.should_stop t ≡ false
        → Step s (record s { log = running t ∷ s.log })
    finish :
        (t : ℕ)
        → has t ts ≡ true
        → s.status t ≡ looping
        → s.should_stop t ≡ true
        → Step s (record s { status = set_at s.status t returned })
