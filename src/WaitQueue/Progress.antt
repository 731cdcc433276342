-- ===== src/WaitQueue/Progress.antt =====
-- Every run of wait_queue/code.c comes to its end.
use lkb.Common.{ℕ, suc, ◌+◌, ◌*◌, ◌<◌, ◌≡◌, ◌⊎◌, inl, inr, refl, ap, arith}
use lkb.Common.Steps.{Steps, Steps-end, Steps-map}
use lkb.WaitQueue.{
  Stage, unloaded, failed, created, woken, cleared, announced, attempted, forced, announced_again,
  attempted_again, paused, loaded, Thread, none, stopped, ready, awake, asleep, ended, System,
  fresh, wake_up, Step,
}
use lkb.WaitQueue.Step.{
  create_fails, create, wake_process, clear, announce, attempt, force, announce_again,
  attempt_again, pause, finish, run, sleep, pass,
}
use lkb.WaitQueue.Order.{IsValid, Step-IsValid, Steps-IsValid}

-- The steps that are left to `start`.
abbrev pub left : Stage → ℕ
left unloaded = 10
left failed = 0
left created = 9
left woken = 8
left cleared = 7
left announced = 6
left attempted = 5
left forced = 4
left announced_again = 3
left attempted_again = 2
left paused = 1
left loaded = 0

-- The steps that are left to the thread, if it is not woken up again.
abbrev pub left_of : Thread → ℕ
left_of none = 0
left_of stopped = 4
left_of ready = 3
left_of awake = 2
left_of asleep = 1
left_of ended = 0

abbrev pub weight : System → ℕ
weight s = 5 * left s.stage + left_of s.thread

-- `start` has failed, or both have returned.
abbrev pub IsDone : System → Type 0
IsDone s = (s.stage ≡ failed) ⊎ ((s.stage ≡ loaded) × (s.thread ≡ ended))

lower : (s t : System) → IsValid s → Step s t → weight t < weight s
lower s _ v (create_fails e) = ground arith
lower s _ v (create e) = ground arith
lower s _ v (wake_process e) = ground arith
lower s _ v (clear e) = ground arith
lower s _ v (announce e) = ground arith
lower s _ v (attempt e) = ground arith
lower s _ v (force e) = ground arith
lower s _ v (announce_again e) = ground arith
lower s _ v (attempt_again e) = ground arith
lower s _ v (pause e) = ground arith
lower s _ v (finish e) = ground arith
lower s _ v (run e) = ground arith
lower s _ v (sleep e z) = ground arith
lower s _ v (pass e z) = ground arith

last_steps :
    (s : System) (t : Thread)
    → s.thread ≡ t
    → s.stage ≡ loaded
    → IsValid s
    → IsDone s ⊎ ((u : System) × Step s u)
last_steps s none e l v = ground arith
last_steps s stopped e l v = ground arith
last_steps s ready e l v = inr (_, run e)
last_steps s awake e l v = inr (_, pass e (ground arith))
last_steps s asleep e l v = ground arith
last_steps s ended e l v = inl (inr (l, e))

can_go : (s : System) → IsValid s → IsDone s ⊎ ((t : System) × Step s t)
can_go s v = at s.stage refl
  where
    at : (g : Stage) → s.stage ≡ g → IsDone s ⊎ ((t : System) × Step s t)
    at unloaded e = inr (_, create e)
    at failed e = inl (inl e)
    at created e = inr (_, wake_process e)
    at woken e = inr (_, clear e)
    at cleared e = inr (_, announce e)
    at announced e = inr (_, attempt e)
    at attempted e = inr (_, force e)
    at forced e = inr (_, announce_again e)
    at announced_again e = inr (_, attempt_again e)
    at attempted_again e = inr (_, pause e)
    at paused e = inr (_, finish e)
    at loaded e = last_steps s s.thread refl e v

-- A step of `start` while the thread is about to run.
abbrev Ahead : System → System → Type 0
Ahead s t = Step s t × (t.thread ≡ ready) × (left t.stage < left s.stage)

IsAhead : System → Type 0
IsAhead s = IsValid s × (s.thread ≡ ready)

next-Ahead :
    (s : System) (g : Stage)
    → s.stage ≡ g
    → IsValid s
    → s.thread ≡ ready
    → ((s.stage ≡ loaded) × (s.thread ≡ ready)) ⊎ ((t : System) × Ahead s t)
next-Ahead s unloaded e v r = absurd (ground arith)
next-Ahead s failed e v r = absurd (ground arith)
next-Ahead s created e v r = absurd (ground arith)
next-Ahead s woken e v r = inr (_, (clear e, r, ground arith))
next-Ahead s cleared e v r = inr (_, (announce e, r, ground arith))
next-Ahead s announced e v r = inr (_, (attempt e, ap wake_up r, ground arith))
next-Ahead s attempted e v r = inr (_, (force e, r, ground arith))
next-Ahead s forced e v r = inr (_, (announce_again e, r, ground arith))
next-Ahead s announced_again e v r = inr (_, (attempt_again e, ap wake_up r, ground arith))
next-Ahead s attempted_again e v r = inr (_, (pause e, r, ground arith))
next-Ahead s paused e v r = inr (_, (finish e, r, ground arith))
next-Ahead s loaded e v r = inl (e, r)

go_ahead :
    (s : System)
    → IsValid s
    → s.thread ≡ ready
    → (t : System) × Steps Step s t × (t.stage ≡ loaded) × (t.thread ≡ ready)
unfolding IsAhead
go_ahead s v e =
    let (t, r, done) =
      Steps-end Ahead IsAhead (λ t. (t.stage ≡ loaded) × (t.thread ≡ ready)) (λ t. left t.stage)
        (λ a b h st. (Step-IsValid a b h.0 st.0, st.1)) (λ a b h st. st.2)
        (λ a h. next-Ahead a a.stage refl h.0 h.1) (suc (left s.stage)) s (omega arith) (v, e) in
    (t, Steps-map Ahead Step (λ a b st. st.0) s t r, done.0, done.1)

-- From every state that `start` and the thread can reach, each step lowers the weight, there is a
-- step unless `start` has failed or both have returned, and some run leads there: no wake-up is
-- missed. Where the thread is about to run, a run also leads to a state in which `start` has
-- returned 0 and it has not run yet.
pub progress_lem :
    (s : System)
    → Steps Step fresh s
    → ((t : System) → Step s t → weight t < weight s)
      × (IsDone s ⊎ ((t : System) × Step s t))
      × ((t : System) × Steps Step s t × IsDone t)
      × (s.thread ≡ ready → (t : System) × Steps Step s t × (t.stage ≡ loaded) × (t.thread ≡ ready))
progress_lem s r =
    let v = Steps-IsValid s r in
    (
      λ t st. lower s t v st,
      can_go s v,
      Steps-end Step IsValid IsDone weight Step-IsValid lower can_go (suc (weight s)) s
          (omega arith) v,
      λ e. go_ahead s v e,
    )
