-- ===== src/Kernel/ContainerOf.antt =====
-- `container_of(ptr, type, member)` and `&obj->member`, for one member of one struct type.
use lkb.Common.{ℕ, ◌≡◌, ◌≢◌}

pub record ContainerOf : Type 0 where
  -- The address of the member of the object at an address.
  pub member : ℕ → ℕ
  -- `container_of`, also called `rb_entry` and `list_entry`.
  pub container_of : ℕ → ℕ
  pub container_of-member : (t : ℕ) → container_of (member t) ≡ t
  -- A member of an object is no null pointer.
  pub member-ne_null : (t : ℕ) → member t ≢ 0
