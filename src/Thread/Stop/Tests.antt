-- ===== src/Thread/Stop/Tests.antt =====
-- Two threads of thread01/code.c, of which one never runs.
use lkb.Common.{ℕ, ◌<◌, ◌≡◌, ◌⊎◌, refl, Bool, true, false, List, [], ◌∷◌, has, Distinct}
use lkb.Common.Steps.{Steps, here, next}
use lkb.Thread.Stop.{
  Status, created, ready, looping, returned, refused, blocked, freed, running, thread_stopped,
  System, set_at, fresh, Step,
}
use lkb.Thread.Stop.Step.{
  wake, load, unload, ask, refuse, reap, reap_refused, begin, round, finish, free,
}
use lkb.Thread.Stop.Count.{is_ended, is_returned, is_late, sum_by, lines_of}
use lkb.Thread.Stop.Safety.{stop_lem}
use lkb.Thread.Stop.Progress.{weight, Quiet, stop_ends}

abbrev two : List ℕ
two = 7 ∷ 8 ∷ []

two-Distinct : Distinct two
two-Distinct = (refl, (refl, tt))

-- Both are woken up, and the first is in its loop.
abbrev half : ℕ → Status
half = set_at (set_at (set_at (λ t. created) 7 ready) 8 ready) 7 looping

abbrev asked : ℕ → Bool
asked = set_at (λ t. false) 7 true

-- The first has printed a line, and `km_exit` waits for it.
abbrev waits : System
waits = record {
  stage = blocked;
  rest = two;
  status = set_at half 7 looping;
  should_stop = asked;
  stopped = 0;
  log = running 7 ∷ [];
}

waits-Steps : Steps (Step two) (fresh two) waits
waits-Steps =
    next
      (next
        (next
          (next
            (next (next (next here (wake 7 (8 ∷ []) refl refl)) (wake 8 [] refl refl))
              (begin 7 refl refl refl))
            (round 7 refl refl refl))
          (load refl refl))
        (unload refl))
      (ask 7 (8 ∷ []) refl refl)

-- The objects are freed.
abbrev over : System
over = record {
  stage = freed;
  rest = [];
  status = set_at (set_at (set_at waits.status 7 returned) 8 ready) 8 refused;
  should_stop = set_at asked 8 true;
  stopped = 1;
  log = thread_stopped 0 ∷ running 7 ∷ [];
}

over-Steps : Steps (Step two) (fresh two) over
over-Steps =
    next
      (next
        (next
          (next (next (next waits-Steps (finish 7 refl refl refl)) (reap 7 (8 ∷ []) refl refl refl))
            (ask 8 [] refl refl))
          (refuse 8 refl refl refl))
        (reap_refused 8 [] refl refl refl))
      (free refl refl)

stop_lem_example :
    ((u : ℕ) → is_ended (over.status u) ≡ true → over.should_stop u ≡ true)
    × ((u : ℕ) → over.status u ≡ refused → lines_of u over.log ≡ 0)
    × (is_late over.stage ≡ true
        → (u : ℕ) → has u two ≡ true
        → has u over.rest ≡ false
        → is_ended (over.status u) ≡ true)
    × (over.stage ≡ freed
        → ((u : ℕ) → has u two ≡ true → is_ended (over.status u) ≡ true)
          × (1 ≡ sum_by is_returned over.status two)
          × ((t : System) → ¬ Step two over t))
stop_lem_example = stop_lem two two-Distinct over over-Steps

stop_ends_example :
    ((t : System) → Quiet two waits t → weight two t < weight two waits)
    × ((waits.stage ≡ freed) ⊎ ((t : System) × Quiet two waits t))
    × ((t : System) × Steps (Quiet two) waits t × (t.stage ≡ freed))
stop_ends_example = stop_ends two two-Distinct waits waits-Steps
