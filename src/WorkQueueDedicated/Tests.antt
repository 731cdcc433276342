-- ===== src/WorkQueueDedicated/Tests.antt =====
-- work_queue_dedicated/code.c at concrete states.
use lkb.Common.{true, ◌⊎◌, ℕ, ◌+◌, ◌≡◌, ◌≢◌, ◌<◌, ◌≤◌, ◌↔◌, refl, [], ◌∷◌, arith}
use lkb.Kernel.Examples.{layout, sequence}
use lkb.WorkQueueDedicated.{batch, State, work_handler}
use lkb.WorkQueueDedicated.Handler.{IsValid, work_handler-IsValid, lock_lem}
use lkb.WorkQueueDedicated.Loading.{requested, Driver, fresh}

abbrev empty : State layout sequence
empty = record {
  moving_val = 0;
  f = λ i. 0;
  value = λ q. 0;
  head = [];
  live = 40 ∷ [];
  log = [];
  held = 0;
}

empty-IsValid : IsValid layout sequence empty
empty-IsValid = record {
  bound = omega arith;
  listed = refl;
  apart = λ i j a b e. elim a [ ];
  valued = λ i lt. elim lt [ ];
  allocated = λ i lt. elim lt [ ];
}

work_handler-IsValid_example : IsValid layout sequence (work_handler layout sequence 100 empty)
work_handler-IsValid_example = work_handler-IsValid layout sequence 100 empty empty-IsValid refl

abbrev null : ℕ
null = 0

lock_lem_example :
    (((work_handler layout sequence null empty).held ≡ 0 + 1)
      ↔ (empty.moving_val < batch) × (null ≡ 0))
    × (((work_handler layout sequence null empty).held ≡ 0)
        ↔ (batch ≤ empty.moving_val) ⊎ (null ≢ 0))
    × (empty.moving_val < batch
        → null ≡ 0
        → ((work_handler layout sequence null empty).moving_val ≡ 0)
          × ((work_handler layout sequence null empty).head ≡ [])
          × ((work_handler layout sequence null empty).live ≡ 40 ∷ []))
lock_lem_example = lock_lem layout sequence null empty

abbrev half_loaded : Driver
half_loaded = record fresh { stage = requested; line_on = true }
