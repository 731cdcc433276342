-- ===== src/Devices/Files.antt =====
-- The open files of /dev/mmapchar beside the loads and unloads of mmap/code.c and ioctl/code.c.
-- Neither `struct file_operations` has an `owner`, so an open file does not keep its module loaded.
pub mod Owned
pub mod Closing
use lkb.Common.{
  ℕ, ℤ, pos, is_zero, Bool, true, false, not, ◌==◌, ◌&&◌, if◌then◌else◌, List, [], ◌∷◌, has, erase,
  Option, none, some,
}
use lkb.Common.Events.{Io}
use lkb.Kernel.ChrdevApi.{ChrdevApi}
use lkb.Mmap.{Driver, dev_release as release_mmap}
use lkb.Ioctl.{dev_release as release_ioctl}
use lkb.Devices.{
  Act, insmod_mmap, rmmod_mmap, insmod_ioctl, rmmod_ioctl, open_device, Outcome, loads, opens,
  closes, crashes, elsewhere, nothing, System, act, node_major,
}

-- An act, where `open_device` keeps the file open; the close of a file with these operations.
pub data FileAct : Type 0 where
  does : Act → FileAct
  close : (f : ℕ) → FileAct

-- `open` gives a file.
abbrev pub gives_file : Outcome → Bool
gives_file (opens e) = is_zero e
gives_file _ = false

-- The operations of the open files after an act, where q is what is registered for the device.
abbrev pub files_after : Act → Outcome → Option ℕ → List ℕ → List ℕ
files_after open_device o (some f) fs = if gives_file o then f ∷ fs else fs
files_after _ o q fs = fs

module _ (api : ChrdevApi) (mmap_fops ioctl_fops : ℕ) where
  open api use {fops_of}

  -- The operations of each open file.
  pub record Opened : Type 0 where
    pub system : System api mmap_fops ioctl_fops
    pub files : List ℕ

  -- `dev_release` of mmap/code.c.
  abbrev pub release_loaded : Option Driver → Outcome
  release_loaded none = crashes
  release_loaded (some d) = closes (release_mmap d).1

  -- The last `close` of a file.
  unfoldable pub release_by : ℕ → System api mmap_fops ioctl_fops → Outcome
  release_by f s =
      if f == mmap_fops
      then release_loaded s.mmap
      else if f == ioctl_fops
      then (if s.ioctl then closes release_ioctl.1 else crashes)
      else elsewhere

  unfoldable pub file_act : FileAct → Opened → Opened × Outcome
  file_act (does a) h =
      let r = act api mmap_fops ioctl_fops a h.system in
      (
        record {
          system = r.0;
          files = files_after a r.1 (fops_of h.system.table node_major) h.files;
        },
        r.1,
      )
  file_act (close f) h =
      if has f h.files
      then (record h { files = erase f h.files }, release_by f h.system)
      else (h, nothing)

  unfoldable pub run_files : List FileAct → Opened → Opened × List Outcome
  run_files [] h = (h, [])
  run_files (a ∷ acts) h =
      let now = file_act a h in let rest = run_files acts now.0 in (rest.0, now.1 ∷ rest.1)

  -- A load of mmap/code.c gets memory, and a module is unloaded while no file of its device is
  -- open.
  abbrev pub orderly : FileAct → Opened → Bool
  orderly (does (insmod_mmap p)) h = not (p == 0)
  orderly (does rmmod_mmap) h = not (has mmap_fops h.files)
  orderly (does rmmod_ioctl) h = not (has ioctl_fops h.files)
  orderly _ h = true

  abbrev pub all_orderly : List FileAct → Opened → Bool
  all_orderly [] h = true
  all_orderly (a ∷ acts) h = orderly a h && all_orderly acts (file_act a h).0
