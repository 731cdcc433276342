-- ===== src/Ioctl/Results.antt =====
-- What each command of ioctl/code.c does to the process that issues it.
use lkb.Common.{
  ℕ, ◌+◌, ◌≤◌, ◌<◌, pos, ◌≡◌, ◌≢◌, ◌↔◌, ◌⊎◌, refl, ap, ◌∙◌, ◌/◌, ◌%◌, ◌^◌, zero, suc, [], ◌∷◌,
  arith,
}
use lkb.Kernel.UserSpace.{UserApi}
use lkb.Ioctl.{Commands, got, no_match, get_variables, set_variables, dev_ioctl, eacces, long_size}

module _ (api : UserApi) (c : Commands) where
  open api use {User, byte, copy_to_user, copy_from_user}

  -- `dev_ioctl` returns 0 or -EACCES; -EACCES exactly when the command is GET or SET and its copy
  -- is not complete. So an unknown command returns 0.
  pub result :
      (cmd arg : ℕ) (u : User)
      → ((dev_ioctl api c cmd arg u).1.1 ≡ pos 0 ⊎ (dev_ioctl api c cmd arg u).1.1 ≡ eacces)
        × (((dev_ioctl api c cmd arg u).1.1 ≡ eacces)
            ↔ ((cmd ≡ c.get) × ((copy_to_user arg 14 long_size u).0 ≢ 0))
              ⊎ ((cmd ≡ c.set) × ((copy_from_user arg long_size u).0 ≢ 0)))
        × (cmd ≢ c.get → cmd ≢ c.clr → cmd ≢ c.set → (dev_ioctl api c cmd arg u).0 ≡ no_match ∷ [])
  unfolding dev_ioctl get_variables set_variables
  result cmd arg u = ground arith

  get_copies :
      (arg : ℕ) (u : User)
      → (dev_ioctl api c c.get arg u).1.1 ≡ pos 0
      → ((copy_to_user arg 14 long_size u).0 ≡ 0)
        × ((dev_ioctl api c c.get arg u).1.0 ≡ (copy_to_user arg 14 long_size u).1)
  unfolding dev_ioctl get_variables set_variables
  get_copies arg u h = ground arith

  high_byte : (i : ℕ) → i < 7 → 14 / 256 ^ (1 + i) % 256 ≡ 0
  high_byte zero h = refl
  high_byte (suc zero) h = refl
  high_byte (suc (suc zero)) h = refl
  high_byte (suc (suc (suc zero))) h = refl
  high_byte (suc (suc (suc (suc zero)))) h = refl
  high_byte (suc (suc (suc (suc (suc zero))))) h = refl
  high_byte (suc (suc (suc (suc (suc (suc zero)))))) h = refl
  high_byte (suc (suc (suc (suc (suc (suc (suc i))))))) h = omega arith

  -- After GET returns 0, the byte at its argument is 14, the next seven are 0, so also the four
  -- after an `int` there, and all others are as they were.
  pub get_overwrites :
      (arg : ℕ) (u : User)
      → (dev_ioctl api c c.get arg u).1.1 ≡ pos 0
      → (byte (dev_ioctl api c c.get arg u).1.0 arg ≡ 14)
        × ((i : ℕ) → i < 7 → byte (dev_ioctl api c c.get arg u).1.0 (arg + (1 + i)) ≡ 0)
        × ((a : ℕ) → a < arg ⊎ arg + 8 ≤ a → byte (dev_ioctl api c c.get arg u).1.0 a ≡ byte u a)
  get_overwrites arg u h =
      let (copied, user) = get_copies arg u h in
      rw user (
        ap (byte _) (omega arith) ∙ api.stored arg 14 long_size u 0 copied (omega arith),
        λ i b. api.stored arg 14 long_size u (1 + i) copied (omega arith) ∙ high_byte i b,
        λ a. api.kept arg 14 long_size u a,
      )

  -- A SET whose copy is complete returns 0, leaves the memory of the process as it is, and prints a
  -- number whose lowest eight bytes are the bytes from its argument on: the four after an `int`
  -- there are in it too.
  pub set_reads :
      (arg : ℕ) (u : User)
      → (copy_from_user arg long_size u).0 ≡ 0
      → (v : ℕ) × (dev_ioctl api c c.set arg u ≡ (got v ∷ [], (u, pos 0)))
        × ((i : ℕ) → i < 8 → v / 256 ^ i % 256 ≡ byte u (arg + i))
  unfolding dev_ioctl get_variables set_variables
  set_reads arg u h = (
    (copy_from_user arg long_size u).1,
    ground (arith, c.get_set, c.clr_set),
    λ i. api.fetched arg long_size u i h,
  )
