-- ===== src/Kernel/FileOps.antt =====
-- `struct file_operations`: what the kernel calls of a device when a process works on its file.
use lkb.Common.{ℕ, ℤ, negsuc}
use lkb.Common.Events.{Io, return}

-- `struct vm_area_struct`: what is read of it.
pub record Vma : Type 0 where
  pub vm_start : ℕ
  pub vm_end : ℕ
  pub vm_pgoff : ℕ
  pub vm_page_prot : ℕ

-- The operations of a module that keeps an M and causes events E, for a process with the memory U.
pub record FileOps (M U E : Type 0) : Type 0 where
  pub open_op : M → Io E (M × ℤ)
  pub release_op : M → Io E (M × ℤ)
  pub mmap_op : Vma → M → Io E (M × ℤ)
  pub ioctl_op : (cmd arg : ℕ) → M → U → Io E (M × U × ℤ)

-- What the kernel returns where the device has no operation `mmap` or `unlocked_ioctl`: -ENODEV,
-- -ENOTTY.
abbrev pub no_mmap : {M E : Type 0} → Vma → M → Io E (M × ℤ)
no_mmap vma m = return (m, negsuc 18)

abbrev pub no_ioctl : {M U E : Type 0} → (cmd arg : ℕ) → M → U → Io E (M × U × ℤ)
no_ioctl cmd arg m u = return (m, u, negsuc 24)

-- An operation that changes nothing that the module keeps.
abbrev pub kept : {M E : Type 0} → M → Io E ℤ → Io E (M × ℤ)
kept m r = (r.0, (m, r.1))
