-- ===== src/WaitQueue/Tests.antt =====
-- The run of wait_queue/code.c whose lines wait_queue/output shows.
use lkb.Common.{◌<◌, ◌≡◌, ◌≢◌, ◌⊎◌, refl, true, [], ◌∷◌, arith}
use lkb.Common.Steps.{Steps, here, next}
use lkb.WaitQueue.{
  loaded, paused, woken, ready, ended, asleep, awake, waiting, attempt_1, attempt_2, wake_up_done,
  done, running, running_again, System, fresh, Step,
}
use lkb.WaitQueue.Step.{
  create, wake_process, clear, announce, attempt, force, announce_again, attempt_again, pause,
  finish, run, sleep, pass,
}
use lkb.WaitQueue.Order.{in_order, is_forced, is_woken, order_lem}
use lkb.WaitQueue.Progress.{weight, IsDone, progress_lem}

-- Before the thread's second line.
abbrev late : System
late = record {
  stage = paused;
  thread = awake;
  condition = 1;
  log = wake_up_done ∷ attempt_2 ∷ attempt_1 ∷ running ∷ waiting ∷ [];
}

-- The thread is about to run.
abbrev early : System
early = record { stage = woken; thread = ready; condition = 0; log = waiting ∷ [] }

abbrev shown : System
shown = record {
  stage = loaded;
  thread = ended;
  condition = 1;
  log = done ∷ running_again ∷ wake_up_done ∷ attempt_2 ∷ attempt_1 ∷ running ∷ waiting ∷ [];
}

late-Steps : Steps Step fresh late
late-Steps =
    next
      (next
        (next
          (next
            (next
              (next
                (next
                  (next
                    (next (next (next (next here (create refl)) (wake_process refl)) (run refl))
                      (sleep refl refl))
                    (clear refl))
                  (announce refl))
                (attempt refl))
              (sleep refl refl))
            (force refl))
          (announce_again refl))
        (attempt_again refl))
      (pause refl)

shown-Steps : Steps Step fresh shown
shown-Steps = next (next late-Steps (pass refl (omega arith))) (finish refl)

order_lem_example :
    (in_order shown.log ≡ true)
    × (shown.thread ≡ ended → (is_forced shown.stage ≡ true) × (shown.condition ≡ 1))
    × (is_woken shown.stage ≡ true → shown.thread ≢ asleep)
order_lem_example = order_lem shown shown-Steps

early-Steps : Steps Step fresh early
early-Steps = next (next here (create refl)) (wake_process refl)

progress_lem_example :
    ((t : System) → Step early t → weight t < weight early)
    × (IsDone early ⊎ ((t : System) × Step early t))
    × ((t : System) × Steps Step early t × IsDone t)
    × (early.thread ≡ ready
        → (t : System) × Steps Step early t × (t.stage ≡ loaded) × (t.thread ≡ ready))
progress_lem_example = progress_lem early early-Steps
