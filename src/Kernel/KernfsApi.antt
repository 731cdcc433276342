-- ===== src/Kernel/KernfsApi.antt =====
-- The roots of linux/kernfs.h behind their documented behaviour.
use lkb.Common.{ℕ, ◌≡◌, List, ◌∷◌, Option, none, some}

pub record KernfsApi : Type 1 where
  pub Kernfs : Type 0
  -- The roots that are created and not destroyed.
  pub roots : Kernfs → List ℕ
  -- The new root; `none` is an error pointer.
  pub kernfs_create_root : Kernfs → Option ℕ × Kernfs
  pub roots-create :
      (k : Kernfs) (p : ℕ)
      → (kernfs_create_root k).0 ≡ some p
      → roots (kernfs_create_root k).1 ≡ p ∷ roots k
  pub roots-create_failed :
      (k : Kernfs) → (kernfs_create_root k).0 ≡ none → roots (kernfs_create_root k).1 ≡ roots k
