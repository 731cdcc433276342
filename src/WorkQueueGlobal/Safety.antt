-- ===== src/WorkQueueGlobal/Safety.antt =====
-- What holds in every state of work_queue_global/code.c.
use lkb.Common.{
  ◌≡◌, ◌≢◌, ◌⊎◌, refl, Bool, true, false, ◌&&◌, ◌||◌, not, ◌==◌, if◌then◌else◌, List, [], ◌∷◌,
  arith,
}
use lkb.Common.Steps.{Steps, Steps-inv}
use lkb.WorkQueueGlobal.{
  Stage, unloaded, failed, asleep, left, loaded, Work, none, set, woke, freed, Line, kmalloc_failed,
  going_to_sleep, woken_up, inside, System, fresh, Step,
}
use lkb.WorkQueueGlobal.Step.{
  kmalloc_fails, schedule, announce, no_wait, wait, sleep, leave, signal, finish, run,
  set_condition, wake, free,
}

-- The object exists at some time.
abbrev pub is_begun : Stage → Bool
is_begun unloaded = false
is_begun failed = false
is_begun _ = true

abbrev is_none : Work → Bool
is_none none = true
is_none _ = false

abbrev pub is_freed : Work → Bool
is_freed freed = true
is_freed _ = false

-- The handler has set the condition.
abbrev pub is_set : Work → Bool
is_set set = true
is_set woke = true
is_set freed = true
is_set _ = false

-- The handler has woken the queue up.
abbrev pub is_woken : Work → Bool
is_woken woke = true
is_woken freed = true
is_woken _ = false

abbrev is_asleep : Stage → Bool
is_asleep asleep = true
is_asleep _ = false

-- `start` has left its wait.
abbrev pub is_past : Stage → Bool
is_past left = true
is_past loaded = true
is_past _ = false

-- Each line of the handler shows 1400, and each line of `start` after its wait 5, or 0 if i holds.
abbrev pub prints_right : Bool → List Line → Bool
prints_right i [] = true
prints_right i (inside v ∷ ls) = (v == 1400) && prints_right i ls
prints_right i (woken_up v ∷ ls) = ((v == 5) || (i && (v == 0))) && prints_right i ls
prints_right i (_ ∷ ls) = prints_right i ls

prints_right-true :
    (i : Bool) (ls : List Line) → prints_right i ls ≡ true → prints_right true ls ≡ true
prints_right-true true ls h = h
prints_right-true false [] h = refl
prints_right-true false (inside v ∷ ls) h = ground (arith, prints_right-true false ls)
prints_right-true false (woken_up v ∷ ls) h = ground (arith, prints_right-true false ls)
prints_right-true false (kmalloc_failed ∷ ls) h = prints_right-true false ls h
prints_right-true false (going_to_sleep v ∷ ls) h = prints_right-true false ls h

pub record IsValid (s : System) : Type 0 where
  pub begun : is_begun s.stage ≡ not (is_none s.work)
  pub held : s.live ≡ is_begun s.stage && not (is_freed s.work)
  pub condition : s.condition ≡ (if is_set s.work then 5 else 0)
  pub value : is_begun s.stage ≡ true → s.value ≡ 1400
  pub past : is_past s.stage ≡ true → (is_set s.work || s.interrupted) ≡ true
  pub awake : is_woken s.work ≡ true → is_asleep s.stage ≡ false
  pub printed : prints_right s.interrupted s.log ≡ true

pub Step-IsValid : (s t : System) → IsValid s → Step s t → IsValid t
Step-IsValid s _ v (kmalloc_fails e) = ground arith
Step-IsValid s _ v (schedule e) = ground arith
Step-IsValid s _ v (announce e) = ground arith
Step-IsValid s _ v (no_wait e z) = ground arith
Step-IsValid s _ v (wait e z) = ground arith
Step-IsValid s _ v (sleep e z) = ground arith
Step-IsValid s _ v (leave e z) = ground arith
Step-IsValid s _ v (signal e) = ground (arith, prints_right-true s.interrupted s.log)
Step-IsValid s _ v (finish e) = ground arith
Step-IsValid s _ v (run e) = ground arith
Step-IsValid s _ v (set_condition e) = ground arith
Step-IsValid s _ v (wake e) = ground arith
Step-IsValid s _ v (free e) = ground arith

fresh-IsValid : IsValid fresh
fresh-IsValid = ground arith

pub Steps-IsValid : (s : System) → Steps Step fresh s → IsValid s
Steps-IsValid s r = Steps-inv Step IsValid Step-IsValid fresh s fresh-IsValid r

-- In every state that `start` and the handler can reach: the handler has printed 1400, and `start`
-- 5, or 0 where a signal has ended its wait; `start` is past its wait only if the condition is 5 or
-- a signal has come; the object is allocated where the handler is about to free it, and not after;
-- and `start` does not sleep once the handler has woken the queue up.
pub safety_lem :
    (s : System)
    → Steps Step fresh s
    → (prints_right s.interrupted s.log ≡ true)
      × (is_past s.stage ≡ true → (s.condition ≡ 5) ⊎ (s.interrupted ≡ true))
      × (s.work ≡ woke → s.live ≡ true)
      × (s.work ≡ freed → s.live ≡ false)
      × (is_woken s.work ≡ true → s.stage ≢ asleep)
safety_lem s r =
    let v = Steps-IsValid s r in (v.printed, ground arith, ground arith, ground arith, ground arith)
