-- ===== src/Mmap/Mapping.antt =====
-- What `dev_mmap` of mmap/code.c maps.
use lkb.Common.{
  is_zero, ℕ, ◌+◌, ◌-◌, ◌*◌, ◌/◌, ◌^◌, ◌≤◌, ◌<◌, ℤ, pos, negsuc, ◌≡◌, ◌≢◌, ◌↔◌, refl, if◌then◌else◌,
  [], ◌∷◌, arith,
}
use lkb.Kernel.FileOps.{Vma}
use lkb.Mmap.{remap_pfn_range, Driver, dev_mmap, offset_of, size_of, wrap}

is_zero_iff :
    (rc : ℤ)
    → (((if is_zero rc then pos 0 else negsuc 10) ≡ pos 0) ↔ (rc ≡ pos 0))
      × (rc ≢ pos 0 → (if is_zero rc then pos 0 else negsuc 10) ≡ negsuc 10)
is_zero_iff (pos n) = ground arith
is_zero_iff (negsuc n) = ground arith

address :
    (d : Driver) (vma : Vma)
    → d.buffer + vma.vm_pgoff * 4096 < 2 ^ 64
    → wrap (d.buffer + offset_of vma) ≡ d.buffer + vma.vm_pgoff * 4096
unfolding offset_of
address d vma fits = omega arith

size_lem :
    (vma : Vma)
    → vma.vm_start ≤ vma.vm_end
    → vma.vm_end < 2 ^ 64
    → size_of vma ≡ vma.vm_end - vma.vm_start
unfolding size_of
size_lem vma le small = omega arith

frame : (a n : ℕ) → (a + n * 4096) / 4096 ≡ a / 4096 + n
frame a n = omega arith

module _ (virt_to_phys : ℕ → ℕ) (remap : (start pfn size prot : ℕ) → ℤ) where
  -- Where the direct mapping of the kernel, in which `virt_to_phys` is linear, goes on from the buffer
  -- to `high`, and `vm_pgoff` pages after the start of the buffer are below it: `dev_mmap` asks for one
  -- mapping: the whole of the area, from the page of the buffer on that is `vm_pgoff` pages after
  -- its first, whatever the area's length and offset are. It returns 0 exactly if `remap_pfn_range`
  -- does, and -EAGAIN otherwise.
  pub dev_mmap_lem :
      (d : Driver) (vma : Vma) (high : ℕ)
      → ((k : ℕ) → d.buffer + k < high → virt_to_phys (d.buffer + k) ≡ virt_to_phys d.buffer + k)
      → high ≤ 2 ^ 64
      → d.buffer + vma.vm_pgoff * 4096 < high
      → vma.vm_start ≤ vma.vm_end
      → vma.vm_end < 2 ^ 64
      → let rc =
          remap vma.vm_start
            (virt_to_phys d.buffer / 4096 + vma.vm_pgoff)
            (vma.vm_end - vma.vm_start)
            vma.vm_page_prot in
        ((dev_mmap virt_to_phys remap d vma).0
          ≡ remap_pfn_range vma.vm_start
              (virt_to_phys d.buffer / 4096 + vma.vm_pgoff)
              (vma.vm_end - vma.vm_start)
              vma.vm_page_prot
              rc
            ∷ [])
        × (((dev_mmap virt_to_phys remap d vma).1 ≡ pos 0) ↔ (rc ≡ pos 0))
        × (rc ≢ pos 0 → (dev_mmap virt_to_phys remap d vma).1 ≡ negsuc 10)
  unfolding dev_mmap
  dev_mmap_lem d vma high flat top fits le small =
      rw
        (address d vma (omega arith), size_lem vma le small, flat (vma.vm_pgoff * 4096) fits, frame)
        (refl, (is_zero_iff _).0, (is_zero_iff _).1)
