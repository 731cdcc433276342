-- ===== src/TaskList.antt =====
-- task_struct/code.c: `start` prints every task on the kernel's circular list of tasks. A task is
-- the address of its `struct task_struct`; `for_each_process(p)` of the kernel is `for (p =
-- &init_task; (p = next_task(p)) != &init_task; )`.
pub mod Start
mod Tests
use lkb.Common.{ℕ, zero, suc, ℤ, pos, ◌==◌, if◌then◌else◌, List, [], ◌∷◌, Option, none, some}

-- What is printed: the name and the number of a task.
pub data Line : Type 0 where
  hello : Line
  process : (comm : List ℕ) (pid : ℕ) → Line

abbrev pub add_line : Line → Option (List Line) → Option (List Line)
add_line x none = none
add_line x (some xs) = some (x ∷ xs)

-- `start` after its loop has printed xs.
abbrev pub returned : Option (List Line) → Option (List Line × ℤ)
returned none = none
returned (some xs) = some (hello ∷ xs, pos 0)

module _ (next_task : ℕ → ℕ) (init_task : ℕ) (comm : ℕ → List ℕ) (pid : ℕ → ℕ) where
  -- The loop of `start`, where `task` is its variable: the lines.
  unfoldable pub for_each_process : (fuel task : ℕ) → Option (List Line)
  for_each_process zero task = none
  for_each_process (suc fuel) task =
      let t = next_task task in
      let rest = for_each_process fuel t in
      if t == init_task then some [] else add_line (process (comm t) (pid t)) rest

  -- `start`: the lines and the result. The value `current` of the variable is overwritten by the
  -- macro.
  unfoldable pub start : (fuel current : ℕ) → Option (List Line × ℤ)
  start fuel current = returned (for_each_process fuel init_task)
