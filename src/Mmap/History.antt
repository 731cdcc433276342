-- ===== src/Mmap/History.antt =====
-- mmap/code.c from its load to its unload, with any calls of its file operations between.
use lkb.Common.{
  ℕ, ℤ, pos, negsuc, lt_int, ◌≡◌, ◌≢◌, refl, ◌∙◌, ap, Bool, true, false, not, ◌&&◌, ◌||◌,
  Bool-cases, inl, inr, is_zero, ◌↔◌, ◌++◌, ◌==◌, if◌then◌else◌, List, [], ◌∷◌, Option, none, some,
  arith,
}
use lkb.Kernel.FileOps.{Vma}
use lkb.Common.Events.{Io, return}
use lkb.Mmap.{
  Event, kmalloc, kfree, remap_pfn_range, Driver, free_buffer, mmap_example_init, mmap_example_exit,
  dev_open, dev_release, dev_mmap,
}

-- What a process calls.
pub data Call : Type 0 where
  open_file : Call
  release : Call
  mmap : Vma → Call

module _ (virt_to_phys : ℕ → ℕ) (remap : (start pfn size prot : ℕ) → ℤ) where
  unfoldable pub handle : Driver → Call → Io Event ℤ
  handle d open_file = dev_open d
  handle d release = dev_release d
  handle d (mmap vma) = dev_mmap virt_to_phys remap d vma

  -- The results, in order.
  unfoldable pub handle_all : Driver → List Call → Io Event (List ℤ)
  handle_all d [] = return []
  handle_all d (c ∷ cs) =
      let r = handle d c in let rest = handle_all d cs in (r.0 ++ rest.0, r.1 ∷ rest.1)

  -- The module is loaded, where `register_chrdev` returns ret and `kmalloc` p; where the load
  -- returns 0 it is used and unloaded. The driver that is left, and the result of the load.
  unfoldable pub session : (ret : ℤ) (p : ℕ) → List Call → Io Event (Driver × ℤ)
  session ret p cs =
      let r = mmap_example_init ret p in
      let used = handle_all r.1.0 cs in
      let gone = mmap_example_exit r.1.0 in
      if is_zero r.1.1 then (r.0 ++ (used.0 ++ gone.0), (gone.1, r.1.1)) else r

-- Whether the buffer is used only while it is allocated, and freed at the end; the first argument
-- is the live buffer.
unfoldable pub buffer_ok : Option ℕ → List Event → Bool
buffer_ok none [] = true
buffer_ok (some p) [] = false
buffer_ok none (kmalloc n p ∷ es) = buffer_ok (if p == 0 then none else some p) es
buffer_ok none (e ∷ es) = false
buffer_ok (some p) (kmalloc n q ∷ es) = false
buffer_ok (some p) (kfree q ∷ es) = (p == q) && buffer_ok none es
buffer_ok (some p) (remap_pfn_range a b c d e ∷ es) = buffer_ok (some p) es

abbrev pub loaded : ℕ → Driver
loaded p = record { registered = true; buffer = p }

-- Whether a file is released.
unfoldable pub releases : List Call → Bool
releases [] = false
releases (release ∷ cs) = true
releases (c ∷ cs) = releases cs

pub nonzero : (p : ℕ) → p ≢ 0 → (p == 0) ≡ false
nonzero p h = ground arith

pub release_frees : (p : ℕ) → p ≢ 0 → (dev_release (loaded p)).0 ≡ kfree p ∷ []
unfolding dev_release free_buffer
release_frees p h = rw (nonzero p h) refl

pub exit_frees : (p : ℕ) → p ≢ 0 → (mmap_example_exit (loaded p)).0 ≡ kfree p ∷ []
unfolding mmap_example_exit free_buffer
exit_frees p h = rw (nonzero p h) refl

module _ (virt_to_phys : ℕ → ℕ) (remap : (start pfn size prot : ℕ) → ℤ) where
  freed_again :
      (p : ℕ) (cs : List Call)
      → p ≢ 0
      → buffer_ok none
          ((handle_all virt_to_phys remap (loaded p) cs).0 ++ (mmap_example_exit (loaded p)).0)
        ≡ false
  unfolding handle_all handle dev_open dev_mmap buffer_ok
  freed_again p [] h = rw (exit_frees p h) refl
  freed_again p (open_file ∷ cs) h = freed_again p cs h
  freed_again p (release ∷ cs) h = rw (release_frees p h) refl
  freed_again p (mmap vma ∷ cs) h = refl

  live :
      (p : ℕ) (cs : List Call)
      → p ≢ 0
      → buffer_ok
          (some p)
          ((handle_all virt_to_phys remap (loaded p) cs).0 ++ (mmap_example_exit (loaded p)).0)
        ≡ not (releases cs)
  unfolding handle_all handle dev_open dev_mmap buffer_ok releases
  live p [] h = rw (exit_frees p h) (ground arith)
  live p (open_file ∷ cs) h = live p cs h
  live p (release ∷ cs) h = rw (release_frees p h) (ground (arith, freed_again p cs h))
  live p (mmap vma ∷ cs) h = live p cs h

  negative : (a : ℤ) → lt_int a (pos 0) ≡ true → is_zero a ≡ false
  unfolding lt_int
  negative (pos n) low = ground arith
  negative (negsuc n) low = refl

  allocates :
      (n p : ℕ) (es : List Event)
      → (p == 0) ≡ false
      → buffer_ok none (kmalloc n p ∷ es) ≡ buffer_ok (some p) es
  unfolding buffer_ok
  allocates n p es e = ap (λ b. buffer_ok (if b then none else some p) es) e

  pub used_events :
      (p : ℕ) (cs : List Call)
      → (p == 0) ≡ false
      → (session virt_to_phys remap (pos 0) p cs).0
        ≡ kmalloc 4096 p
          ∷ ((handle_all virt_to_phys remap (loaded p) cs).0 ++ (mmap_example_exit (loaded p)).0)
  unfolding session mmap_example_init lt_int
  used_events p cs e = rw e refl

  pub used_lem :
      (p : ℕ) (cs : List Call)
      → (p == 0) ≡ false
      → buffer_ok none (session virt_to_phys remap (pos 0) p cs).0 ≡ not (releases cs)
  used_lem p cs e =
      ap (buffer_ok none) (used_events p cs e) ∙ allocates 4096 p _ e ∙ live p cs (ground arith)

  session_good :
      (ret : ℤ) (p : ℕ) (cs : List Call)
      → lt_int ret (pos 0) ≡ false
      → session virt_to_phys remap ret p cs ≡ session virt_to_phys remap (pos 0) p cs
  unfolding session mmap_example_init lt_int
  session_good ret p cs good = rw good refl

  -- The load returns 0 exactly if `register_chrdev` and `kmalloc` succeed. With any calls between
  -- load and unload, the buffer is used only while it is allocated, and freed once if it was
  -- allocated, exactly if the load fails or no file is released. At the end the device is still
  -- registered exactly if the registration succeeded and `kmalloc` failed.
  pub session_lem :
      (ret : ℤ) (p : ℕ) (cs : List Call)
      → let r = session virt_to_phys remap ret p cs in
        ((r.1.1 ≡ pos 0) ↔ (lt_int ret (pos 0) ≡ false) × (p ≢ 0))
        × (buffer_ok none r.0 ≡ (lt_int ret (pos 0) || (p == 0) || not (releases cs)))
        × (r.1.0.registered ≡ (not (lt_int ret (pos 0)) && (p == 0)))
  unfolding session mmap_example_init mmap_example_exit buffer_ok
  session_lem ret p cs = elim (Bool-cases (lt_int ret (pos 0))) [
    | inl low ↦ rw (low, negative ret low) (ground (arith, negative ret low))
    | inr good ↦ elim (Bool-cases (p == 0)) [
      | inl null ↦ rw (good, null) (ground arith)
      | inr some_buffer ↦
          let same = session_good ret p cs good in
          rw (same, good, some_buffer) (ground (arith, used_lem p cs some_buffer))
    ]
  ]
