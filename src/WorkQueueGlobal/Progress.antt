-- ===== src/WorkQueueGlobal/Progress.antt =====
-- Every run of work_queue_global/code.c comes to its end, also without a signal.
use lkb.Common.{ℕ, suc, ◌+◌, ◌*◌, ◌<◌, ◌≡◌, ◌⊎◌, inl, inr, refl, arith}
use lkb.Common.Steps.{Steps, Steps-end}
use lkb.WorkQueueGlobal.{
  Stage, unloaded, failed, scheduled, announced, awake, asleep, left, loaded, Work, none, queued,
  running, set, woke, freed, System, fresh, Step,
}
use lkb.WorkQueueGlobal.Step.{
  kmalloc_fails, schedule, announce, no_wait, wait, sleep, leave, signal, finish, run,
  set_condition, wake, free,
}
use lkb.WorkQueueGlobal.Safety.{IsValid, Step-IsValid, Steps-IsValid}

abbrev pub rank : Stage → ℕ
rank unloaded = 21
rank failed = 0
rank scheduled = 5
rank announced = 4
rank awake = 3
rank asleep = 2
rank left = 1
rank loaded = 0

abbrev pub rank_of : Work → ℕ
rank_of none = 0
rank_of queued = 5
rank_of running = 4
rank_of set = 3
rank_of woke = 2
rank_of freed = 1

abbrev pub weight : System → ℕ
weight s = rank s.stage + 3 * rank_of s.work

-- `start` has failed, or both have returned.
abbrev pub IsDone : System → Type 0
IsDone s = (s.stage ≡ failed) ⊎ ((s.stage ≡ loaded) × (s.work ≡ freed))

-- A step that is no signal.
abbrev pub Undisturbed : System → System → Type 0
Undisturbed s t = Step s t × (t.interrupted ≡ s.interrupted)

lower : (s t : System) → IsValid s → Step s t → weight t < weight s
lower s _ v (kmalloc_fails e) = ground arith
lower s _ v (schedule e) = ground arith
lower s _ v (announce e) = ground arith
lower s _ v (no_wait e z) = ground arith
lower s _ v (wait e z) = ground arith
lower s _ v (sleep e z) = ground arith
lower s _ v (leave e z) = ground arith
lower s _ v (signal e) = ground arith
lower s _ v (finish e) = ground arith
lower s _ v (run e) = ground arith
lower s _ v (set_condition e) = ground arith
lower s _ v (wake e) = ground arith
lower s _ v (free e) = ground arith

-- The steps of `start` once the handler has returned.
go_last :
    (s : System) (g : Stage)
    → s.stage ≡ g
    → s.work ≡ freed
    → IsValid s
    → IsDone s ⊎ ((t : System) × Undisturbed s t)
go_last s unloaded e w v = ground arith
go_last s failed e w v = inl (inl e)
go_last s scheduled e w v = inr (_, (announce e, refl))
go_last s announced e w v = inr (_, (no_wait e (ground arith), refl))
go_last s awake e w v = inr (_, (leave e (ground arith), refl))
go_last s asleep e w v = ground arith
go_last s left e w v = inr (_, (finish e, refl))
go_last s loaded e w v = inl (inr (e, w))

-- The steps of `start` before it schedules the work.
go_first :
    (s : System) (g : Stage)
    → s.stage ≡ g
    → s.work ≡ none
    → IsValid s
    → IsDone s ⊎ ((t : System) × Undisturbed s t)
go_first s unloaded e w v = inr (_, (schedule e, refl))
go_first s failed e w v = inl (inl e)
go_first s scheduled e w v = ground arith
go_first s announced e w v = ground arith
go_first s awake e w v = ground arith
go_first s asleep e w v = ground arith
go_first s left e w v = ground arith
go_first s loaded e w v = ground arith

can_go : (s : System) → IsValid s → IsDone s ⊎ ((t : System) × Undisturbed s t)
can_go s v = at s.work refl
  where
    at : (w : Work) → s.work ≡ w → IsDone s ⊎ ((t : System) × Undisturbed s t)
    at none e = go_first s s.stage refl e v
    at queued e = inr (_, (run e, refl))
    at running e = inr (_, (set_condition e, refl))
    at set e = inr (_, (wake e, refl))
    at woke e = inr (_, (free e, refl))
    at freed e = go_last s s.stage refl e v

-- From every reachable state each step lowers the weight, and there is a step that is no signal
-- unless `start` has failed or both it and the handler have returned; so a run without a signal
-- leads there.
pub progress_global :
    (s : System)
    → Steps Step fresh s
    → ((t : System) → Step s t → weight t < weight s)
      × (IsDone s ⊎ ((t : System) × Undisturbed s t))
      × ((t : System) × Steps Undisturbed s t × IsDone t)
progress_global s r =
    let v = Steps-IsValid s r in
    (
      λ t st. lower s t v st,
      can_go s v,
      Steps-end Undisturbed IsValid IsDone weight (λ a b h st. Step-IsValid a b h st.0)
          (λ a b h st. lower a b h st.0) can_go (suc (weight s)) s (omega arith) v,
    )
