-- ===== src/Kernfs.antt =====
-- kernfs/code.c: a root whose operations do nothing. `kernfs_file` is the constant KERNFS_FILE.
pub mod Loads
mod Tests
use lkb.Common.{ℕ, ℤ, pos, List, ◌++◌, [], ◌∷◌, Option, none, some}
use lkb.Common.Events.{Io, ◌>>=◌, ◌>>◌, emit, return}
use lkb.Kernel.KernfsApi.{KernfsApi}

-- What is printed.
pub data Line : Type 0 where
  hello : ℕ → Line
  goodbye : Line

-- `fruit_syscall_ops` with the arguments of each: pointers, a mode, texts.
pub data Operation : Type 0 where
  show_options : (seq kf_root : ℕ) → Operation
  mkdir : (parent_kn : ℕ) (name : List ℕ) (mode : ℕ) → Operation
  rmdir : (kn : ℕ) → Operation
  rename : (kn new_parent : ℕ) (new_name : List ℕ) → Operation

module _ (api : KernfsApi) where
  open api use {Kernfs, kernfs_create_root}

  -- The operations of the root.
  unfoldable pub fruit : Operation → Kernfs → Kernfs × ℤ
  fruit (show_options seq kf_root) k = (k, pos 0)
  fruit (mkdir parent_kn name mode) k = (k, pos 0)
  fruit (rmdir kn) k = (k, pos 0)
  fruit (rename kn new_parent new_name) k = (k, pos 0)

  -- `km_init`: the field `kf_root` of its local variable, and its result.
  unfoldable pub km_init : (kernfs_file : ℕ) → Kernfs → Io Line (Kernfs × Option ℕ × ℤ)
  km_init kernfs_file k = do
    emit (hello kernfs_file)
    let r = kernfs_create_root k
    return (r.1, r.0, pos 0)

  unfoldable pub km_exit : Kernfs → Io Line Kernfs
  km_exit k = emit goodbye >> return k
