-- ===== src/Devices.antt =====
-- mmap/code.c and ioctl/code.c together: both register the major number 150, as the device of
-- /dev/mmapchar. The `struct file_operations` of the two stand at mmap_fops and ioctl_fops.
-- Both Makefiles give the module the name `code`: while one is loaded, the kernel refuses the other
-- before its init function runs. Here that function runs and fails, which has the same effect: the
-- load returns an error and changes nothing.
pub mod Spec
pub mod Loads
pub mod Refine
pub mod Faults
pub mod Programs
pub mod Files
mod Tests
use lkb.Common.{
  ℕ, ℤ, pos, negsuc, lt_int, Bool, true, false, not, ◌==◌, if◌then◌else◌, List, [], ◌∷◌, Option,
  none, some,
}
use lkb.Common.Events.{Io}
use lkb.Kernel.ChrdevApi.{ChrdevApi}
use lkb.Mmap.{
  Driver, mmap_example_init, mmap_example_exit, dev_open as open_mmap, major_number as mmap_major,
}
use lkb.Ioctl.{ioctl_init, ioctl_exit, dev_open as open_ioctl, major_number as ioctl_major}

-- What root and the processes do: `insmod` of mmap/code.c where `kmalloc` returns p, `rmmod`, the
-- same for ioctl/code.c, `open`.
pub data Act : Type 0 where
  insmod_mmap : (p : ℕ) → Act
  rmmod_mmap : Act
  insmod_ioctl : Act
  rmmod_ioctl : Act
  open_device : Act

-- The result of the init function, what `open` and the last `close` of a file return; a call of a
-- module that is not loaded; `open` on another module's device; no code of the two modules that
-- returns a number.
pub data Outcome : Type 0 where
  loads : ℤ → Outcome
  opens : ℤ → Outcome
  closes : ℤ → Outcome
  crashes : Outcome
  elsewhere : Outcome
  nothing : Outcome

-- The major number of /dev/mmapchar, by `mknod`.
abbrev pub node_major : ℕ
node_major = 150

-- -ENXIO
abbrev pub enxio : ℤ
enxio = negsuc 5

module _ (api : ChrdevApi) (mmap_fops ioctl_fops : ℕ) where
  open api use {Table, fops_of, register_chrdev, unregister_chrdev}

  -- The devices of the kernel; what mmap/code.c keeps while it is loaded; whether ioctl/code.c is.
  pub record System : Type 0 where
    pub table : Table
    pub mmap : Option Driver
    pub ioctl : Bool

  -- `insmod` of a module that is not loaded.
  unfoldable pub load_mmap : (p : ℕ) → System → System × Outcome
  load_mmap p s =
      let r = register_chrdev mmap_major mmap_fops s.table in
      let m = (mmap_example_init r.0 p).1 in
      (record s { table = r.1; mmap = if lt_int m.1 (pos 0) then none else some m.0 }, loads m.1)

  unfoldable pub load_ioctl : System → System × Outcome
  load_ioctl s =
      let r = register_chrdev ioctl_major ioctl_fops s.table in
      let m = (ioctl_init r.0).1 in
      (record s { table = r.1; ioctl = not (lt_int m.1 (pos 0)) }, loads m.1)

  -- `rmmod` of a module that is loaded.
  unfoldable pub unload_mmap : Driver → System → System × Outcome
  unload_mmap d s =
      let gone = (mmap_example_exit d).1 in
      (
        record s {
          table = if gone.registered then s.table else unregister_chrdev mmap_major s.table;
          mmap = none;
        },
        nothing,
      )

  unfoldable pub unload_ioctl : System → System × Outcome
  unload_ioctl s =
      let registered = ioctl_exit.1 in
      (
        record s {
          table = if registered then s.table else unregister_chrdev ioctl_major s.table;
          ioctl = false;
        },
        nothing,
      )

  -- `dev_open` of mmap/code.c.
  abbrev pub open_loaded : Option Driver → Outcome
  open_loaded none = crashes
  open_loaded (some d) = opens (open_mmap d).1

  unfoldable pub open_by : Option ℕ → System → Outcome
  open_by none s = opens enxio
  open_by (some f) s =
      if f == mmap_fops
      then open_loaded s.mmap
      else if f == ioctl_fops
      then (if s.ioctl then opens open_ioctl.1 else crashes)
      else elsewhere

  -- `open` of /dev/mmapchar, by the operations that are registered for it.
  unfoldable pub open_node : System → Outcome
  unfolding open_by
  open_node s = open_by (fops_of s.table node_major) s

  unfoldable pub act : Act → System → System × Outcome
  act (insmod_mmap p) s = elim s.mmap [ none ↦ load_mmap p s | some d ↦ (s, nothing) ]
  act rmmod_mmap s = elim s.mmap [ none ↦ (s, nothing) | some d ↦ unload_mmap d s ]
  act insmod_ioctl s = if s.ioctl then (s, nothing) else load_ioctl s
  act rmmod_ioctl s = if s.ioctl then unload_ioctl s else (s, nothing)
  act open_device s = (s, open_node s)

  -- The acts one after the other.
  unfoldable pub run : List Act → System → System × List Outcome
  run [] s = (s, [])
  run (a ∷ acts) s = let now = act a s in let rest = run acts now.0 in (rest.0, now.1 ∷ rest.1)
