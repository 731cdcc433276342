-- ===== src/WorkQueueGlobal/Tests.antt =====
-- A run of work_queue_global/code.c in which `start` sleeps before the handler runs.
use lkb.Common.{◌<◌, ◌≡◌, ◌≢◌, ◌⊎◌, refl, true, false, [], ◌∷◌}
use lkb.Common.Steps.{Steps, here, next}
use lkb.WorkQueueGlobal.{
  asleep, loaded, set, woke, freed, going_to_sleep, inside, System, fresh, Step,
}
use lkb.WorkQueueGlobal.Step.{schedule, announce, wait, sleep, run, set_condition}
use lkb.WorkQueueGlobal.Safety.{prints_right, is_past, is_woken, safety_lem}
use lkb.WorkQueueGlobal.Asleep.{Hazard, asleep_lem}
use lkb.WorkQueueGlobal.Progress.{weight, IsDone, Undisturbed, progress_global}

abbrev waiting : System
waiting = record {
  stage = asleep;
  work = set;
  condition = 5;
  value = 1400;
  live = true;
  interrupted = false;
  log = inside 1400 ∷ going_to_sleep 0 ∷ [];
}

waiting-Steps : Steps Step fresh waiting
waiting-Steps =
    next
      (next
        (next (next (next (next here (schedule refl)) (announce refl)) (wait refl refl))
          (sleep refl refl))
        (run refl))
      (set_condition refl)

safety_lem_example :
    (prints_right waiting.interrupted waiting.log ≡ true)
    × (is_past waiting.stage ≡ true → (waiting.condition ≡ 5) ⊎ (waiting.interrupted ≡ true))
    × (waiting.work ≡ woke → waiting.live ≡ true)
    × (waiting.work ≡ freed → waiting.live ≡ false)
    × (is_woken waiting.work ≡ true → waiting.stage ≢ asleep)
safety_lem_example = safety_lem waiting waiting-Steps

asleep_lem_example :
    (is_woken waiting.work ≡ false)
    × (waiting.live ≡ true)
    × ((t : System) × Steps Step waiting t × (t.stage ≡ loaded) × (t.work ≡ set))
    × Hazard waiting
asleep_lem_example = asleep_lem waiting waiting-Steps refl

progress_global_example :
    ((t : System) → Step waiting t → weight t < weight waiting)
    × (IsDone waiting ⊎ ((t : System) × Undisturbed waiting t))
    × ((t : System) × Steps Undisturbed waiting t × IsDone t)
progress_global_example = progress_global waiting waiting-Steps
