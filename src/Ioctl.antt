-- ===== src/Ioctl.antt =====
-- ioctl/code.c: the character device and its commands. The command numbers are what the kernel's
-- macros compute.
pub mod Results
pub mod Program
pub mod Session
mod Tests
use lkb.Common.{
  ℕ, ℤ, pos, negsuc, lt_int, ◌≡◌, ◌≢◌, Bool, true, false, ◌==◌, if◌then◌else◌, List, [], ◌∷◌,
}
use lkb.Common.Events.{Io, ◌>>=◌, ◌>>◌, emit, return}
use lkb.Kernel.UserSpace.{UserApi}
use lkb.Kernel.FileOps.{FileOps, no_mmap, kept}

-- The labels of the `switch`, which are different or it does not compile.
pub record Commands : Type 0 where
  pub get : ℕ
  pub clr : ℕ
  pub set : ℕ
  pub get_clr : get ≢ clr
  pub get_set : get ≢ set
  pub clr_set : clr ≢ set

pub data Line : Type 0 where
  register_failed : ℤ → Line
  registered : Line
  opened : Line
  closed : Line
  to_user_failed : Line
  clear : Line
  from_user_failed : Line
  got : ℕ → Line
  no_match : Line
  goodbye : Line

-- `majorNumber`
abbrev pub major_number : ℕ
major_number = 150

-- `ioctl_init`: whether the device is registered then, and the result; `ret` is what
-- `register_chrdev` returns, negative when it has not registered the device.
unfoldable pub ioctl_init : (ret : ℤ) → Io Line (Bool × ℤ)
ioctl_init ret =
    if lt_int ret (pos 0)
    then emit (register_failed ret) >> return (false, ret)
    else (emit registered >> return (true, pos 0))

-- `ioctl_exit`: the device is not registered any more.
unfoldable pub ioctl_exit : Io Line Bool
ioctl_exit = emit goodbye >> return false

unfoldable pub dev_open : Io Line ℤ
dev_open = emit opened >> return (pos 0)

unfoldable pub dev_release : Io Line ℤ
dev_release = emit closed >> return (pos 0)

-- `sizeof(unsigned long)`
abbrev pub long_size : ℕ
long_size = 8

-- `-EACCES`
abbrev pub eacces : ℤ
eacces = negsuc 12

module _ (api : UserApi) (c : Commands) where
  open api use {User, copy_to_user, copy_from_user}

  -- `case QUERY_GET_VARIABLES`
  unfoldable pub get_variables : (arg : ℕ) → User → Io Line (User × ℤ)
  get_variables arg u =
      let r = copy_to_user arg 14 long_size u in
      if r.0 == 0 then (return (r.1, pos 0)) else (emit to_user_failed >> return (r.1, eacces))

  -- `case QUERY_SET_VARIABLES`
  unfoldable pub set_variables : (arg : ℕ) → User → Io Line (User × ℤ)
  set_variables arg u =
      let r = copy_from_user arg long_size u in
      if r.0 == 0
      then (emit (got r.1) >> return (u, pos 0))
      else (emit from_user_failed >> return (u, eacces))

  -- `dev_ioctl`: the memory of the process, and the result.
  unfoldable pub dev_ioctl : (cmd arg : ℕ) → User → Io Line (User × ℤ)
  dev_ioctl cmd arg u =
      if cmd == c.get
      then get_variables arg u
      else if cmd == c.clr
      then (emit clear >> return (u, pos 0))
      else if cmd == c.set
      then set_variables arg u
      else (emit no_match >> return (u, pos 0))

  -- `fops`. The module keeps nothing.
  unfoldable pub fops : FileOps (Unit {0}) User Line
  fops = record {
    open_op = λ m. kept m dev_open;
    release_op = λ m. kept m dev_release;
    mmap_op = no_mmap;
    ioctl_op = λ cmd arg m u. let r = dev_ioctl cmd arg u in (r.0, (m, r.1.0, r.1.1));
  }
