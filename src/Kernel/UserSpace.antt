-- ===== src/Kernel/UserSpace.antt =====
-- `copy_to_user` and `copy_from_user` of at most eight bytes, on a little-endian machine.
use lkb.Common.{ℕ, ◌+◌, ◌/◌, ◌%◌, ◌^◌, ◌≤◌, ◌<◌, ◌≡◌, ◌⊎◌}

pub record UserApi : Type 1 where
  pub User : Type 0
  pub byte : User → ℕ → ℕ
  -- The address, the value whose bytes are copied, their number; the result is the number of bytes
  -- that could not be copied.
  pub copy_to_user : (to value n : ℕ) → User → ℕ × User
  -- The number of bytes that could not be copied, and the value that is there at the end.
  pub copy_from_user : (from n : ℕ) → User → ℕ × ℕ
  pub stored :
      (to value n : ℕ) (u : User) (i : ℕ)
      → (copy_to_user to value n u).0 ≡ 0
      → i < n
      → byte (copy_to_user to value n u).1 (to + i) ≡ value / 256 ^ i % 256
  pub kept :
      (to value n : ℕ) (u : User) (a : ℕ)
      → (a < to) ⊎ (to + n ≤ a)
      → byte (copy_to_user to value n u).1 a ≡ byte u a
  pub fetched :
      (from n : ℕ) (u : User) (i : ℕ)
      → (copy_from_user from n u).0 ≡ 0
      → i < n
      → (copy_from_user from n u).1 / 256 ^ i % 256 ≡ byte u (from + i)
