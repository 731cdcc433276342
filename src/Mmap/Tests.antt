-- ===== src/Mmap/Tests.antt =====
-- mmap/code.c with concrete addresses.
use lkb.Common.{
  ℕ, ◌+◌, ℤ, pos, lt_int, false, negsuc, ◌≡◌, ◌≢◌, ◌↔◌, true, not, List, [], ◌∷◌, none, arith,
}
use lkb.Kernel.FileOps.{Vma}
use lkb.Mmap.{remap_pfn_range, Driver, dev_mmap}
use lkb.Mmap.History.{Call, open_file, release, mmap, session, buffer_ok, releases, session_lem}
use lkb.Mmap.Mapping.{dev_mmap_lem}

abbrev direct : ℕ → ℕ
direct a = a + 8192

abbrev accepted : (start pfn size prot : ℕ) → ℤ
accepted start pfn size prot = pos 0

-- Two pages, of which the second lies behind the buffer.
abbrev two_pages : Vma
two_pages = record { vm_start = 4096; vm_end = 12288; vm_pgoff = 1; vm_page_prot = 3 }

abbrev calls : List Call
calls = open_file ∷ mmap two_pages ∷ release ∷ []

abbrev device : Driver
device = record { registered = true; buffer = 40960 }

abbrev allocated : ℕ
allocated = 40960

session_lem_example :
    (((session direct accepted (pos 0) allocated calls).1.1 ≡ pos 0)
      ↔ (lt_int (pos 0) (pos 0) ≡ false) × (allocated ≢ 0))
    × (buffer_ok none (session direct accepted (pos 0) allocated calls).0 ≡ not (releases calls))
    × ((session direct accepted (pos 0) allocated calls).1.0.registered ≡ false)
unfolding lt_int
session_lem_example = session_lem direct accepted (pos 0) allocated calls

dev_mmap_lem_example :
    ((dev_mmap direct accepted device two_pages).0 ≡ remap_pfn_range 4096 13 8192 3 (pos 0) ∷ [])
    × (((dev_mmap direct accepted device two_pages).1 ≡ pos 0) ↔ (accepted 4096 13 8192 3 ≡ pos 0))
    × (accepted 4096 13 8192 3 ≢ pos 0 → (dev_mmap direct accepted device two_pages).1 ≡ negsuc 10)
dev_mmap_lem_example =
    dev_mmap_lem direct accepted device two_pages 1000000 (λ k h. omega arith) (omega arith)
      (omega arith) (omega arith) (omega arith)
