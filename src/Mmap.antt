-- ===== src/Mmap.antt =====
-- mmap/code.c: the character device and its buffer.
pub mod History
pub mod Program
pub mod Mapping
mod Tests
use lkb.Common.{
  is_zero, ℕ, ◌+◌, ◌-◌, ◌*◌, ◌/◌, ◌%◌, ◌^◌, ℤ, pos, negsuc, lt_int, Bool, true, false, ◌==◌,
  if◌then◌else◌,
}
use lkb.Common.Events.{Io, ◌>>=◌, ◌>>◌, emit, return}
use lkb.Kernel.FileOps.{Vma, FileOps, no_ioctl, kept}

-- The calls that touch the buffer, each with its arguments and what it returns; 0 is NULL.
pub data Event : Type 0 where
  kmalloc : (size result : ℕ) → Event
  kfree : ℕ → Event
  remap_pfn_range : (start pfn size prot : ℕ) (result : ℤ) → Event

-- Whether the device is registered, and the global `buffer`.
pub record Driver : Type 0 where
  pub registered : Bool
  pub buffer : ℕ

-- `majorNumber`
abbrev pub major_number : ℕ
major_number = 150

-- `SIZE`
abbrev pub size_of_buffer : ℕ
size_of_buffer = 4096

-- `mmap_example_init`; `ret` and `p` are what `register_chrdev` and `kmalloc` return.
unfoldable pub mmap_example_init : (ret : ℤ) (p : ℕ) → Io Event (Driver × ℤ)
mmap_example_init ret p =
    if lt_int ret (pos 0)
    then return (record { registered = false; buffer = 0 }, ret)
    else (emit (kmalloc size_of_buffer p)
        >> return (record { registered = true; buffer = p }, if p == 0 then negsuc 0 else pos 0))

-- `if(buffer) kfree(buffer);`
unfoldable pub free_buffer : Driver → Io Event Unit
free_buffer d = if d.buffer == 0 then return tt else emit (kfree d.buffer)

unfoldable pub dev_open : Driver → Io Event ℤ
dev_open d = return (pos 0)

unfoldable pub dev_release : Driver → Io Event ℤ
dev_release d = free_buffer d >> return (pos 0)

unfoldable pub mmap_example_exit : Driver → Io Event Driver
mmap_example_exit d = free_buffer d >> return (record d { registered = false })

-- `PAGE_SHIFT`
abbrev pub page_shift : ℕ
page_shift = 12

-- The arguments of type `unsigned long`.
abbrev pub wrap : ℕ → ℕ
wrap n = n % 2 ^ 64

-- `vm_pgoff << PAGE_SHIFT`
unfoldable pub offset_of : Vma → ℕ
offset_of vma = wrap (vma.vm_pgoff * 2 ^ page_shift)

-- `vm_end - vm_start`
unfoldable pub size_of : Vma → ℕ
size_of vma = wrap (vma.vm_end + 2 ^ 64 - vma.vm_start)

-- `dev_mmap`; `virt_to_phys` and the result of `remap_pfn_range` are the kernel's.
unfoldable pub dev_mmap :
    (virt_to_phys : ℕ → ℕ) (remap : (start pfn size prot : ℕ) → ℤ) → Driver → Vma → Io Event ℤ
dev_mmap virt_to_phys remap d vma = do
  let pfn = virt_to_phys (wrap (d.buffer + offset_of vma)) / 2 ^ page_shift
  let rc = remap vma.vm_start pfn (size_of vma) vma.vm_page_prot
  emit (remap_pfn_range vma.vm_start pfn (size_of vma) vma.vm_page_prot rc)
  return (if is_zero rc then pos 0 else negsuc 10)

-- `fops`
unfoldable pub fops :
    {U : Type 0}
    → (virt_to_phys : ℕ → ℕ) (remap : (start pfn size prot : ℕ) → ℤ) → FileOps Driver U Event
fops virt_to_phys remap = record {
  open_op = λ d. kept d (dev_open d);
  release_op = λ d. kept d (dev_release d);
  mmap_op = λ vma d. kept d (dev_mmap virt_to_phys remap d vma);
  ioctl_op = no_ioctl;
}
