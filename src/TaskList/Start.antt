-- ===== src/TaskList/Start.antt =====
-- What `start` of task_struct/code.c prints.
use lkb.Common.{
  ℕ, zero, suc, ◌<◌, pos, ◌≡◌, refl, ap, true, false, ◌==◌, List, [], ◌∷◌, map, length, has, some,
  arith,
}
use lkb.Kernel.RcuList.{Chain}
use lkb.TaskList.{hello, process, add_line, for_each_process, start}

module _ (next_task : ℕ → ℕ) (init_task : ℕ) (comm : ℕ → List ℕ) (pid : ℕ → ℕ) where
  for_each_process_lem :
      (fuel task : ℕ) (ts : List ℕ)
      → Chain next_task init_task (next_task task) ts
      → length ts < fuel
      → for_each_process next_task init_task comm pid fuel task
        ≡ some (map (λ t. process (comm t) (pid t)) ts)
  unfolding for_each_process
  for_each_process_lem zero task ts chain lt = elim lt [ ]
  for_each_process_lem (suc fuel) task [] chain lt =
      let test : (next_task task == init_task) ≡ true = ground arith in rw test refl
  for_each_process_lem (suc fuel) task (t ∷ ts) (here, inside, chain) lt =
      let test : (t == init_task) ≡ false = ground arith in
      rw (here, test)
        (ap (add_line (process (comm t) (pid t)))
          (for_each_process_lem fuel t ts chain (omega arith)))

  Chain-out : (n : ℕ) (ts : List ℕ) → Chain next_task init_task n ts → has init_task ts ≡ false
  Chain-out n [] chain = refl
  Chain-out n (t ∷ ts) (here, inside, chain) = ground (arith, Chain-out (next_task t) ts)

  -- Where the links lead from `init_task` through the tasks ts back to it, and there are more
  -- rounds of fuel than tasks: `start` prints the name and the number of each of them once, in this
  -- order, whatever task is the current one, and returns 0; `init_task` itself is not among them.
  pub start_prints :
      (fuel current : ℕ) (ts : List ℕ)
      → Chain next_task init_task (next_task init_task) ts
      → length ts < fuel
      → (start next_task init_task comm pid fuel current
          ≡ some (hello ∷ map (λ t. process (comm t) (pid t)) ts, pos 0))
        × (has init_task ts ≡ false)
  unfolding start
  start_prints fuel current ts chain lt = (
    rw (for_each_process_lem fuel init_task ts chain lt) refl,
    Chain-out (next_task init_task) ts chain,
  )
