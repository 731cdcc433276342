-- ===== src/TaskList/Tests.antt =====
-- task_struct/code.c with two tasks behind `init_task`.
use lkb.Common.{ℕ, ◌*◌, pos, ◌≡◌, refl, false, ◌==◌, if◌then◌else◌, List, [], ◌∷◌, has, some, arith}
use lkb.TaskList.{hello, process, start}
use lkb.TaskList.Start.{start_prints}

-- 100 is init_task, 200 and 300 follow.
abbrev link : ℕ → ℕ
link t = if t == 100 then 200 else if t == 200 then 300 else 100

abbrev names : ℕ → List ℕ
names t = t ∷ []

abbrev numbers : ℕ → ℕ
numbers t = 2 * t

start_prints_example :
    (start link 100 names numbers 3 300
      ≡ some (hello ∷ process (200 ∷ []) 400 ∷ process (300 ∷ []) 600 ∷ [], pos 0))
    × (has 100 (200 ∷ 300 ∷ []) ≡ false)
start_prints_example =
    start_prints link 100 names numbers 3 300 (200 ∷ 300 ∷ [])
      (refl, omega arith, (refl, omega arith, refl)) (omega arith)
