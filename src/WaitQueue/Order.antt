-- ===== src/WaitQueue/Order.antt =====
-- The order in which the lines of wait_queue/code.c are printed.
use lkb.Common.{◌≡◌, ◌≢◌, Bool, true, false, ◌&&◌, ◌||◌, not, if◌then◌else◌, List, [], ◌∷◌, arith}
use lkb.Common.Steps.{Steps, Steps-inv}
use lkb.WaitQueue.{
  Stage, unloaded, failed, created, announced, attempted, forced, announced_again, attempted_again,
  paused, loaded, Thread, none, stopped, awake, asleep, ended, Line, attempt_1, running,
  running_again, System, fresh, Step,
}
use lkb.WaitQueue.Step.{
  create_fails, create, wake_process, clear, announce, attempt, force, announce_again,
  attempt_again, pause, finish, run, sleep, pass,
}

abbrev is_attempt_1 : Line → Bool
is_attempt_1 attempt_1 = true
is_attempt_1 _ = false

abbrev is_running : Line → Bool
is_running running = true
is_running _ = false

abbrev any : (Line → Bool) → List Line → Bool
any p [] = false
any p (x ∷ xs) = p x || any p xs

-- Whether the thread's second line stands only after its first and after the line of attempt 1; the
-- last line stands first.
abbrev pub in_order : List Line → Bool
in_order [] = true
in_order (running_again ∷ xs) = any is_running xs && (any is_attempt_1 xs && in_order xs)
in_order (_ ∷ xs) = in_order xs

abbrev pub is_forced : Stage → Bool
is_forced forced = true
is_forced announced_again = true
is_forced attempted_again = true
is_forced paused = true
is_forced loaded = true
is_forced _ = false

-- Attempt 1 is printed.
abbrev pub is_announced : Stage → Bool
is_announced announced = true
is_announced attempted = true
is_announced s = is_forced s

-- The second wake-up is done.
abbrev pub is_woken : Stage → Bool
is_woken attempted_again = true
is_woken paused = true
is_woken loaded = true
is_woken _ = false

-- The thread has run.
abbrev pub has_run : Thread → Bool
has_run awake = true
has_run asleep = true
has_run ended = true
has_run _ = false

abbrev is_none : Thread → Bool
is_none none = true
is_none _ = false

abbrev is_stopped : Thread → Bool
is_stopped stopped = true
is_stopped _ = false

abbrev is_asleep : Thread → Bool
is_asleep asleep = true
is_asleep _ = false

abbrev is_ended : Thread → Bool
is_ended ended = true
is_ended _ = false

-- What a thread can be at each stage.
abbrev pub fits : Stage → Thread → Bool
fits unloaded t = is_none t
fits failed t = is_none t
fits created t = is_stopped t
fits s t =
    not (is_none t)
    && (not (is_stopped t)
        && ((not (is_asleep t) || not (is_woken s)) && (not (is_ended t) || is_forced s)))

pub record IsValid (s : System) : Type 0 where
  pub fit : fits s.stage s.thread ≡ true
  pub condition : s.condition ≡ (if is_forced s.stage then 1 else 0)
  pub announced : is_announced s.stage ≡ true → any is_attempt_1 s.log ≡ true
  pub running : has_run s.thread ≡ true → any is_running s.log ≡ true
  pub order : in_order s.log ≡ true

pub Step-IsValid : (s t : System) → IsValid s → Step s t → IsValid t
Step-IsValid s _ v (create_fails e) = ground arith
Step-IsValid s _ v (create e) = ground arith
Step-IsValid s _ v (wake_process e) = ground arith
Step-IsValid s _ v (clear e) = ground arith
Step-IsValid s _ v (announce e) = ground arith
Step-IsValid s _ v (attempt e) = ground arith
Step-IsValid s _ v (force e) = ground arith
Step-IsValid s _ v (announce_again e) = ground arith
Step-IsValid s _ v (attempt_again e) = ground arith
Step-IsValid s _ v (pause e) = ground arith
Step-IsValid s _ v (finish e) = ground arith
Step-IsValid s _ v (run e) = ground arith
Step-IsValid s _ v (sleep e z) = ground arith
Step-IsValid s _ v (pass e z) = ground arith

fresh-IsValid : IsValid fresh
fresh-IsValid = ground arith

pub Steps-IsValid : (s : System) → Steps Step fresh s → IsValid s
Steps-IsValid s r = Steps-inv Step IsValid Step-IsValid fresh s fresh-IsValid r

-- In every state that `start` and the thread can reach: the thread's second line stands only after
-- its first and after that of attempt 1; if the thread has left its wait, `start` has set the
-- condition to 1; and if `start` has done its second wake-up, the thread does not sleep.
pub order_lem :
    (s : System)
    → Steps Step fresh s
    → (in_order s.log ≡ true)
      × (s.thread ≡ ended → (is_forced s.stage ≡ true) × (s.condition ≡ 1))
      × (is_woken s.stage ≡ true → s.thread ≢ asleep)
order_lem s r = let v = Steps-IsValid s r in (v.order, ground arith, ground arith)
