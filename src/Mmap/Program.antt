-- ===== src/Mmap/Program.antt =====
-- mmap/mmap.c, the program that uses the device of mmap/code.c, with the calls that it makes of the
-- device's operations. `fd` is what `open` returns, negative when there is no device; `page` is
-- what the program finds at its mapping. The kernel calls `dev_release` when the file has no user
-- left: a mapping is one, so after the mapping has succeeded that is the end of the process, else
-- `close`.
use lkb.Common.{
  ℕ, zero, suc, ℤ, pos, negsuc, lt_int, is_zero, ◌≡◌, ◌≢◌, refl, ◌∙◌, ap, sym, false, not, ◌==◌,
  if◌then◌else◌, List, [], ◌∷◌, ◌++◌, map, none, arith, Bool-cases, inl, inr, ap₂,
}
use mathlib.Core.List.{append-nil, append_assoc}
use lkb.Kernel.FileOps.{Vma, FileOps}
use lkb.Common.Events.{Io, ◌>>=◌, ◌>>◌, emit, return}
use lkb.Mmap.{
  Event, kmalloc, Driver, fops, mmap_example_init, mmap_example_exit, dev_open, dev_release,
  dev_mmap,
}
use lkb.Mmap.History.{
  Call, open_file, release, mmap, handle, handle_all, buffer_ok, releases, loaded, used_events,
  used_lem,
}

-- What the module does, and what the program prints.
pub data Output (E : Type 0) : Type 0 where
  module_event : E → Output E
  open_failed : Output E
  failed_to_mmap : Output E
  all_ok : Output E
  char_line : ℕ → Output E

abbrev pub call : {E A : Type 0} → Io E A → Io (Output E) A
call m = (map module_event m.0, m.1)

-- What the module does.
abbrev module_events : {E : Type 0} → List (Output E) → List E
module_events [] = []
module_events (module_event e ∷ os) = e ∷ module_events os
module_events (open_failed ∷ os) = module_events os
module_events (failed_to_mmap ∷ os) = module_events os
module_events (all_ok ∷ os) = module_events os
module_events (char_line n ∷ os) = module_events os

module _ {M U E : Type 0} (f : FileOps M U E) where
  -- `main` after a call of `mmap` that returned rc. 65 is 'A'.
  unfoldable pub use_mapping : (rc : ℤ) (page : ℕ → ℕ) → M → Io (Output E) (M × ℤ)
  use_mapping rc page m =
      let page' = λ (i : ℕ). if i == 0 then 65 else page i in
      let closed = call (f.release_op m) in
      if is_zero rc
      then (emit all_ok >> (emit (char_line (page' 0)) >> (closed >>= λ k. return (k.0, pos 0))))
      else (emit failed_to_mmap >> (closed >>= λ k. return (k.0, negsuc 0)))

  -- `main`, on the device that f is: what the module keeps, and the result.
  unfoldable pub main : (fd : ℤ) (page : ℕ → ℕ) → Vma → M → Io (Output E) (M × ℤ)
  unfolding use_mapping
  main fd page vma m =
      if lt_int fd (pos 0)
      then (emit open_failed >> return (m, negsuc 0))
      else do o ← call (f.open_op m); rc ← call (f.mmap_op vma o.0); use_mapping rc.1 page rc.0

module _ (virt_to_phys : ℕ → ℕ) (remap : (start pfn size prot : ℕ) → ℤ) where
  -- The device of mmap/code.c. The program asks for no `ioctl`.
  abbrev pub device : FileOps Driver (Unit {0}) Event
  device = fops virt_to_phys remap

  -- n runs of the program, one after the other.
  run_each : (n : ℕ) (page : ℕ → ℕ) → Vma → Driver → List (Output Event)
  run_each zero page vma d = []
  run_each (suc n) page vma d = (main device (pos 3) page vma d).0 ++ run_each n page vma d

  -- The module is loaded, where `kmalloc` returns p, n runs of the program, and the module is
  -- unloaded.
  program_session : (p n : ℕ) (page : ℕ → ℕ) → Vma → List Event
  program_session p n page vma =
      let r = mmap_example_init (pos 0) p in
      r.0 ++ (module_events (run_each n page vma r.1.0) ++ (mmap_example_exit r.1.0).0)

-- The calls of n runs.
abbrev calls : ℕ → Vma → List Call
calls zero vma = []
calls (suc n) vma = open_file ∷ mmap vma ∷ release ∷ calls n vma

no_run : (n : ℕ) (vma : Vma) → not (releases (calls n vma)) ≡ (n == 0)
unfolding releases
no_run zero vma = refl
no_run (suc n) vma = ground arith

module-events-map :
    {E : Type 0} (es : List E) (os : List (Output E))
    → module_events (map module_event es ++ os) ≡ es ++ module_events os
module-events-map [] os = refl
module-events-map (e ∷ es) os = ap (λ xs. e ∷ xs) (module-events-map es os)

module-events-append :
    {E : Type 0} (os ps : List (Output E))
    → module_events (os ++ ps) ≡ module_events os ++ module_events ps
module-events-append [] ps = refl
module-events-append (module_event e ∷ os) ps = ap (λ xs. e ∷ xs) (module-events-append os ps)
module-events-append (open_failed ∷ os) ps = module-events-append os ps
module-events-append (failed_to_mmap ∷ os) ps = module-events-append os ps
module-events-append (all_ok ∷ os) ps = module-events-append os ps
module-events-append (char_line n ∷ os) ps = module-events-append os ps

module _ (virt_to_phys : ℕ → ℕ) (remap : (start pfn size prot : ℕ) → ℤ) where
  -- Whether the mapping succeeds or not.
  use_mapping-events :
      (rc : ℤ) (page : ℕ → ℕ) (d : Driver)
      → module_events (use_mapping (device virt_to_phys remap) rc page d).0 ≡ (dev_release d).0
  unfolding use_mapping fops
  use_mapping-events rc page d = elim (Bool-cases (is_zero rc)) [
    | inl z ↦ rw z (module-events-map (dev_release d).0 [] ∙ append-nil (dev_release d).0)
    | inr z ↦ rw z (module-events-map (dev_release d).0 [] ∙ append-nil (dev_release d).0)
  ]

  -- Where the device is opened, the module sees the mapping and the release.
  main-events :
      (fd : ℤ) (page : ℕ → ℕ) (vma : Vma) (d : Driver)
      → lt_int fd (pos 0) ≡ false
      → module_events (main (device virt_to_phys remap) fd page vma d).0
        ≡ (dev_mmap virt_to_phys remap d vma).0 ++ (dev_release d).0
  unfolding main fops dev_open
  main-events fd page vma d good = rw good (
      module-events-map (dev_mmap virt_to_phys remap d vma).0 _
      ∙ ap (λ xs. (dev_mmap virt_to_phys remap d vma).0 ++ xs)
          (use_mapping-events (dev_mmap virt_to_phys remap d vma).1 page d))

  run_each-events :
      (n : ℕ) (page : ℕ → ℕ) (vma : Vma) (d : Driver)
      → module_events (run_each virt_to_phys remap n page vma d)
        ≡ (handle_all virt_to_phys remap d (calls n vma)).0
  unfolding run_each handle_all handle dev_open lt_int
  run_each-events zero page vma d = refl
  run_each-events (suc n) page vma d =
      module-events-append (main (device virt_to_phys remap) (pos 3) page vma d).0
        (run_each virt_to_phys remap n page vma d)
      ∙ ap₂ ◌++◌ (main-events (pos 3) page vma d refl) (run_each-events n page vma d)
      ∙ append_assoc (dev_mmap virt_to_phys remap d vma).0 (dev_release d).0 _

  -- Whatever the area and the result of `remap_pfn_range`: from the load of the module, where its
  -- buffer is allocated, over n runs of the program to the unload, the buffer is used only while it
  -- is allocated, and freed once, exactly if the program is not run.
  runs_lem :
      (p n : ℕ) (page : ℕ → ℕ) (vma : Vma)
      → p ≢ 0
      → buffer_ok none (program_session virt_to_phys remap p n page vma) ≡ (n == 0)
  unfolding program_session mmap_example_init lt_int
  runs_lem p n page vma given =
      let some_buffer : (p == 0) ≡ false = ground arith in
      ap (λ es. buffer_ok none (kmalloc 4096 p ∷ (es ++ (mmap_example_exit (loaded p)).0)))
        (run_each-events n page vma (loaded p))
      ∙ sym (ap (buffer_ok none) (used_events virt_to_phys remap p (calls n vma) some_buffer))
      ∙ used_lem virt_to_phys remap p (calls n vma) some_buffer
      ∙ no_run n vma
