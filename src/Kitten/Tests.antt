-- ===== src/Kitten/Tests.antt =====
-- container_of/code.c with `pname` right behind `tom`.
use lkb.Common.{ℕ, pos, ◌≡◌, ◌≢◌, refl, inl, [], ◌∷◌, ok, fault, arith}
use lkb.Kernel.Examples.{layout}
use lkb.Kitten.{name, furry, Memory, tom_cat, int_at, pointer_at, start}
use lkb.Kitten.Start.{start_writes}

abbrev stack : Memory
stack = record { word_at = λ q. 77; text_at = λ q. [] }

abbrev heap : ℕ
heap = 9000

start_writes_example :
    (heap ≢ 0
      → (r : Memory) × (start layout heap 200 216 stack
          ≡ ok (
            name tom_cat ∷ name tom_cat ∷ name tom_cat ∷ furry 1 ∷ furry 9000 ∷ furry 100 ∷ [],
            r,
            pos 0,
          ))
        × (int_at r.word_at 200 ≡ 1)
        × (int_at r.word_at 208 ≡ 100)
        × (pointer_at r.word_at 216 ≡ heap)
        × (pointer_at r.word_at 208 ≡ 100)
        × ((q : ℕ)
            → q ≢ 200
            → q ≢ 208
            → q ≢ 212
            → q ≢ 216
            → q ≢ 220
            → q ≢ 208
            → int_at r.word_at q ≡ int_at stack.word_at q))
    × (heap ≡ 0 → start layout heap 200 216 stack ≡ fault)
start_writes_example =
    start_writes layout heap 200 216 stack (λ t. refl) refl refl refl (inl (omega arith))
      (omega arith)
