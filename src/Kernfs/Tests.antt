-- ===== src/Kernfs/Tests.antt =====
-- kernfs/code.c in a kernel that gives out its roots in order.
use lkb.Common.{ℕ, suc, ◌+◌, ◌≤◌, ◌≡◌, List, [], ◌∷◌, length, Option, none, some, arith}
use lkb.Kernel.KernfsApi.{KernfsApi}
use lkb.Kernfs.{Operation, mkdir, rmdir}
use lkb.Kernfs.Loads.{zeros, loads, loads_leak}

abbrev create : List ℕ → Option ℕ × List ℕ
create k = (some (suc (length k)), suc (length k) ∷ k)

create-roots : (k : List ℕ) (p : ℕ) → (create k).0 ≡ some p → (create k).1 ≡ p ∷ k
create-roots k p e = ground arith

create-failed : (k : List ℕ) → (create k).0 ≡ none → (create k).1 ≡ k
create-failed k e = cc

abbrev counting : KernfsApi
counting = record {
  Kernfs = List ℕ;
  roots = λ k. k;
  kernfs_create_root = create;
  roots-create = create-roots;
  roots-create_failed = create-failed;
}

abbrev used : List Operation
used = mkdir 1 (97 ∷ []) 0 ∷ rmdir 1 ∷ []

loads_leak_example :
    let r = loads counting 2 3 used (7 ∷ []) in (r.1 ≡ zeros 3) × (length r.0 ≡ 1 + r.2) × (r.2 ≤ 3)
loads_leak_example = loads_leak counting 2 3 used (7 ∷ [])
