-- ===== src/Memory/Tests.antt =====
-- memory1/code.c and memory2/code.c with concrete pointers; the third allocation of the first
-- fails.
use lkb.Common.{[], ◌∷◌}
use lkb.Memory.{code_init, memory_init}
use lkb.Memory.Balance.{Balanced, init-Balanced}

init-Balanced_example :
    Balanced (16 ∷ 32 ∷ 0 ∷ []) (code_init 16 32 4096 0)
    × Balanced (16 ∷ 32 ∷ 48 ∷ 64 ∷ []) (memory_init 16 32 48 64)
init-Balanced_example = init-Balanced 16 32 4096 0 16 32 48 64
