-- ===== src/Devices/Programs.antt =====
-- The programs ioctl/ioctl.c and mmap/mmap.c, which open the same /dev/mmapchar, each on the device
-- of the other's module.
use lkb.Common.{
  ℕ, ℤ, pos, negsuc, lt_int, ◌≡◌, ◌≢◌, refl, ◌∙◌, ap, false, List, [], ◌∷◌, ◌++◌, none, some,
  if◌then◌else◌, arith,
}
use lkb.Kernel.UserSpace.{UserApi}
use lkb.Kernel.FileOps.{Vma}
use lkb.Mmap.{
  Event, kmalloc, kfree, mmap_example_init, mmap_example_exit, dev_open as open_mmap,
  fops as mmap_fops,
}
use lkb.Mmap.History.{buffer_ok, loaded, release_frees, exit_frees, nonzero}
use lkb.Mmap.Program.{module_event, failed_to_mmap, use_mapping, main as mmap_main}
use lkb.Ioctl.{
  Commands, opened, closed, dev_open as open_ioctl, dev_release as close_ioctl, fops as ioctl_fops,
}
use lkb.Ioctl.Program.{Output, module_line, open_failed, error_ioctl, set_done, main as ioctl_main}

-- What the module does.
abbrev pub device_events : {E : Type 0} → List (Output E) → List E
device_events [] = []
device_events (module_line e ∷ os) = e ∷ device_events os
device_events (open_failed ∷ os) = device_events os
device_events (error_ioctl ∷ os) = device_events os
device_events (set_done ∷ os) = device_events os

mmap_on_ioctl :
    (api : UserApi) (c : Commands) (fd : ℤ) (page : ℕ → ℕ) (vma : Vma)
    → lt_int fd (pos 0) ≡ false
    → mmap_main (ioctl_fops api c) fd page vma tt
      ≡ (module_event opened ∷ failed_to_mmap ∷ module_event closed ∷ [], (tt, negsuc 0))
unfolding mmap_main use_mapping ioctl_fops open_ioctl close_ioctl
mmap_on_ioctl api c fd page vma good = rw good refl

module _ (virt_to_phys : ℕ → ℕ) (remap : (start pfn size prot : ℕ) → ℤ) (c : Commands) where
  -- mmap/code.c is loaded, where `kmalloc` returns p, ioctl/ioctl.c is run, and mmap/code.c is
  -- unloaded.
  pub foreign_session : {U : Type 0} → (store : ℕ → U → U) (fd : ℤ) (p q : ℕ) → U → List Event
  foreign_session store fd p q u =
      let r = mmap_example_init (pos 0) p in
      let used = ioctl_main (mmap_fops virt_to_phys remap) c store fd q r.1.0 u in
      r.0 ++ (device_events used.0 ++ (mmap_example_exit used.1.0).0)

  ioctl_on_mmap :
      {U : Type 0} (store : ℕ → U → U) (fd : ℤ) (q p : ℕ) (u : U)
      → lt_int fd (pos 0) ≡ false
      → p ≢ 0
      → ioctl_main (mmap_fops virt_to_phys remap) c store fd q (loaded p) u ≡ (
        error_ioctl ∷ set_done ∷ module_line (kfree p) ∷ [],
        (loaded p, store 140 (store 0 u), pos 0),
      )
  unfolding ioctl_main mmap_fops open_mmap lt_int
  ioctl_on_mmap store fd q p u good given = rw (good, release_frees p given) refl

  freed_twice : (p : ℕ) → p ≢ 0 → buffer_ok none (kmalloc 4096 p ∷ kfree p ∷ kfree p ∷ []) ≡ false
  unfolding buffer_ok
  freed_twice p given =
      ap (λ b. buffer_ok (if b then none else some p) (kfree p ∷ kfree p ∷ [])) (nonzero p given)
      ∙ ground arith

  foreign_events :
      {U : Type 0} (store : ℕ → U → U) (fd : ℤ) (p q : ℕ) (u : U)
      → lt_int fd (pos 0) ≡ false
      → p ≢ 0
      → foreign_session store fd p q u ≡ kmalloc 4096 p ∷ kfree p ∷ kfree p ∷ []
  unfolding foreign_session mmap_example_init lt_int
  foreign_events store fd p q u good given =
      rw (ioctl_on_mmap store fd q p u good given, exit_frees p given) refl

  -- Where the device is opened: ioctl/ioctl.c on the device of mmap/code.c prints an error and that
  -- it is done, and returns 0; its `close` frees the buffer, so that between load and unload with a
  -- buffer the buffer is freed twice. mmap/mmap.c on the device of ioctl/code.c prints that the
  -- mapping failed, and returns -1.
  pub wrong_device_lem :
      (api : UserApi) {U : Type 0} (store : ℕ → U → U) (fd : ℤ) (q p : ℕ) (u : U) (page : ℕ → ℕ)
      (vma : Vma)
      → lt_int fd (pos 0) ≡ false
      → p ≢ 0
      → (ioctl_main (mmap_fops virt_to_phys remap) c store fd q (loaded p) u ≡ (
        error_ioctl ∷ set_done ∷ module_line (kfree p) ∷ [],
        (loaded p, store 140 (store 0 u), pos 0),
      ))
        × (buffer_ok none (foreign_session store fd p q u) ≡ false)
        × (mmap_main (ioctl_fops api c) fd page vma tt
            ≡ (module_event opened ∷ failed_to_mmap ∷ module_event closed ∷ [], (tt, negsuc 0)))
  wrong_device_lem api store fd q p u page vma good given = (
    ioctl_on_mmap store fd q p u good given,
    ap (buffer_ok none) (foreign_events store fd p q u good given) ∙ freed_twice p given,
    mmap_on_ioctl api c fd page vma good,
  )
