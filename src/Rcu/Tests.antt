-- ===== src/Rcu/Tests.antt =====
-- rcu/code.c with objects whose entries stand eight bytes into them.
use lkb.Common.{
  ◌+◌, ◌≢◌, ◌<◌, ◌*◌, ◌%◌, pos, negsuc, ℕ, ◌≡◌, refl, [], ◌∷◌, ◌++◌, false, ◌==◌, if◌then◌else◌,
  some, arith,
}
use lkb.Kernel.Examples.{layout}
use lkb.Kernel.ListHead.{Injective, down}
use lkb.Rcu.Run.{lines}
use lkb.Rcu.Start.{run_lem, run_fails}
use lkb.Rcu.{start, end, grace_period, malloc_failed, deleted, State}
use lkb.Rcu.Links.{links}

-- What stands in memory before.
abbrev values : ℕ → ℕ
values q = q % 7

abbrev slots : ℕ → ℕ
slots i = 1000 + 64 * i

-- The list is empty, and `new_node` stands at 500.
abbrev fresh : State layout links
fresh = record {
  list = record { listed = []; fit = refl; stale = λ n. 0 };
  data_of = values;
  flag = false;
  queued = [];
  live = 50 ∷ [];
  log = [];
  held = 0;
}

slots-Injective : Injective 5 slots
slots-Injective i j a b e = omega arith

run_lem_example :
    (r : State layout links) × (start layout links slots 9 500 fresh ≡ some (pos 0, r))
    × (r.log
        ≡ (([] ++ lines 0 (40 ∷ 30 ∷ 20 ∷ 10 ∷ 0 ∷ [])) ++ lines 1 (40 ∷ 30 ∷ 20 ∷ 1400 ∷ 0 ∷ []))
          ++ lines 2 (40 ∷ 30 ∷ 1400 ∷ 0 ∷ []))
    × (r.list.listed ≡ 1264 ∷ 1200 ∷ 508 ∷ 1008 ∷ [])
    × (r.held ≡ 0)
    × (r.live ≡ 1256 ∷ 1192 ∷ 1128 ∷ 1064 ∷ 1000 ∷ 50 ∷ [])
    × ((grace_period layout links layout r).log ≡ r.log ++ deleted 20 ∷ [])
    × ((grace_period layout links layout r).live ≡ 1256 ∷ 1192 ∷ 1064 ∷ 1000 ∷ 50 ∷ [])
    × ((end layout links r).queued ≡ 1128 ∷ [])
    × ((end layout links r).live ≡ 1256 ∷ 1192 ∷ 1128 ∷ 1064 ∷ 1000 ∷ 50 ∷ [])
run_lem_example =
    run_lem layout links layout slots 500 9 fresh (λ i lt. omega arith) slots-Injective
      (λ i lt. omega arith) (λ i lt. omega arith) (omega arith) refl refl (omega arith)

-- The third `kmalloc` fails.
abbrev two_slots : ℕ → ℕ
two_slots i = if i == 2 then 0 else slots i

two_slots-ne_null : (i : ℕ) → i < 2 → two_slots i ≢ 0
two_slots-ne_null i lt = ground arith

run_fails_example :
    (r : State layout links) × (start layout links two_slots 9 500 fresh ≡ some (negsuc 0, r))
    × (r.list ≡ fresh.list)
    × (r.live ≡ down two_slots 2 ++ 50 ∷ [])
    × (r.log ≡ [] ++ malloc_failed 2 ∷ [])
run_fails_example =
    run_fails layout links two_slots 500 9 2 fresh (omega arith) two_slots-ne_null refl
