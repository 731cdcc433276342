-- ===== src/LinkList/Tests.antt =====
-- link_list/code.c with objects 64 bytes apart and a list that is a plain sequence.
use lkb.Common.{
  ℕ, suc, ◌+◌, ◌*◌, ◌≡◌, ◌≢◌, ◌<◌, refl, pos, negsuc, [], ◌∷◌, ◌++◌, has, false, ◌==◌,
  if◌then◌else◌, arith,
}
use lkb.Kernel.ListHead.{Injective, down}
use lkb.Kernel.Examples.{layout, sequence}
use lkb.LinkList.{kmalloc_failed, State, start}
use lkb.LinkList.Run.{lines}
use lkb.LinkList.Success.{start_lem}
use lkb.LinkList.Failure.{start_leaks}

abbrev slots : ℕ → ℕ
slots i = 1000 + 64 * i

abbrev before : State layout sequence
before = record { mylist = 7 ∷ []; a = λ p. 0; live = 50 ∷ []; log = [] }

slots-ne_null : (i : ℕ) → i < 5 → slots i ≢ 0
slots-ne_null i lt = omega arith

slots-Injective : Injective 5 slots
slots-Injective i j a b e = omega arith

slots_fresh : (i : ℕ) → i < 5 → has (slots i) (50 ∷ []) ≡ false
slots_fresh i lt = ground arith

slots-ne_temp : (i : ℕ) → i < 5 → 8 ≢ slots i
slots-ne_temp i lt = omega arith

start_lem_example :
    (r : State layout sequence) × (start layout sequence slots 8 before ≡ (pos 0, r))
    × (r.log
        ≡ (([] ++ lines (400 ∷ 300 ∷ 200 ∷ 100 ∷ 0 ∷ []))
            ++ lines (400 ∷ 300 ∷ 200 ∷ 100 ∷ 0 ∷ 1400 ∷ []))
          ++ lines (400 ∷ 300 ∷ 200 ∷ 100 ∷ []))
    × (r.live ≡ 50 ∷ [])
    × (r.mylist ≡ down (λ i. slots (suc i) + 8) 4)
    × ((i : ℕ) → i < 5 → has (slots i) r.live ≡ false)
start_lem_example =
    start_lem layout sequence slots 8 before slots-ne_null slots-Injective slots_fresh slots-ne_temp

-- The third `kmalloc` fails.
abbrev two_slots : ℕ → ℕ
two_slots i = if i == 2 then 0 else slots i

two_slots-ne_null : (i : ℕ) → i < 2 → two_slots i ≢ 0
two_slots-ne_null i lt = ground arith

start_leaks_example :
    (r : State layout sequence) × (start layout sequence two_slots 8 before ≡ (negsuc 0, r))
    × (r.mylist ≡ [])
    × (r.log ≡ [] ++ kmalloc_failed 2 ∷ [])
    × (r.live ≡ down two_slots 2 ++ 50 ∷ [])
start_leaks_example =
    start_leaks layout sequence two_slots 2 8 before (omega arith) two_slots-ne_null refl
