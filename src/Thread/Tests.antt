-- ===== src/Thread/Tests.antt =====
-- thread01/code.c with objects 64 bytes apart and a list that is a plain sequence.
use lkb.Common.{
  List, map, ℕ, ◌+◌, ◌*◌, ◌≡◌, ◌≢◌, ◌<◌, inr, refl, ℤ, pos, negsuc, [], ◌∷◌, ◌++◌, ◌==◌,
  if◌then◌else◌, Option, none, some, arith,
}
use lkb.Kernel.ListHead.{Injective, down}
use lkb.Kernel.Examples.{layout, sequence}
use lkb.Thread.{
  Event, created, data_line, woken, kmalloc_failed, kthread_failed, all_created, separator, goodbye,
  State, km_init, km_exit,
}
use lkb.Thread.Create.{created_lines}
use lkb.Thread.Life.{init_fails, life_lem, asked_to_stop, ended, zeros, count_up}

abbrev slots : ℕ → ℕ
slots i = 1000 + 64 * i

abbrev threads : ℕ → ℕ
threads i = 9000 + 128 * i

abbrev all_made : ℕ → Option ℕ
all_made i = some (threads i)

-- The third thread cannot be created.
abbrev two_made : ℕ → Option ℕ
two_made i = if i == 2 then none else some (threads i)

-- A thread that never ran ends with -EINTR.
abbrev stop_result : ℕ → ℤ
stop_result t = if t == 9000 then negsuc 3 else pos 0

abbrev before : State layout sequence
before = record { gwl = []; task = λ p. 0; live = 50 ∷ []; log = [] }

slots-ne_null : (i : ℕ) → i < 5 → slots i ≢ 0
slots-ne_null i lt = omega arith

slots-Injective : Injective 5 slots
slots-Injective i j a b e = omega arith

two_made-some : (i : ℕ) → i < 2 → two_made i ≡ some (threads i)
two_made-some i lt = ground arith

init_fails_example :
    (r : State layout sequence) × (km_init layout sequence slots two_made before ≡ (negsuc 0, r))
    × (r.gwl ≡ [])
    × (r.live ≡ (if slots 2 == 0 then [] else slots 2 ∷ []) ++ (down slots 2 ++ 50 ∷ []))
    × (r.log
        ≡ ([] ++ created_lines threads 2)
          ++ (if slots 2 == 0 then kmalloc_failed 2 else kthread_failed 2) ∷ [])
init_fails_example =
    init_fails layout sequence slots two_made threads 2 before (omega arith)
      (λ i lt. slots-ne_null i (omega arith)) two_made-some (inr refl)

life_lem_example :
    (r : State layout sequence) × (es : List Event) × (km_init layout sequence slots all_made before
      ≡ (pos 0, r))
    × ((km_exit layout sequence slots stop_result r).live ≡ 50 ∷ [])
    × (r.log
        ≡ (([]
              ++ created (threads 0)
                ∷ created (threads 1)
                ∷ created (threads 2)
                ∷ created (threads 3)
                ∷ created (threads 4)
                ∷ [])
            ++ all_created ∷ [])
          ++ data_line 0
            ∷ woken (threads 4)
            ∷ data_line 1
            ∷ woken (threads 3)
            ∷ data_line 2
            ∷ woken (threads 2)
            ∷ data_line 3
            ∷ woken (threads 1)
            ∷ data_line 4
            ∷ woken (threads 0)
            ∷ separator
            ∷ [])
    × ((km_exit layout sequence slots stop_result r).log ≡ r.log ++ (es ++ goodbye ∷ []))
    × (asked_to_stop es ≡ threads 4 ∷ threads 3 ∷ threads 2 ∷ threads 1 ∷ threads 0 ∷ [])
    × (ended es ≡ count_up 0 (zeros (map stop_result (down threads 5))))
life_lem_example =
    life_lem layout sequence slots all_made threads stop_result before slots-ne_null slots-Injective
      (λ i lt. refl)
