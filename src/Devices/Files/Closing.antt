-- ===== src/Devices/Files/Closing.antt =====
-- Whether a `close` of /dev/mmapchar runs code of a module that is not loaded.
use lkb.Common.{
  ◌⊎◌, ℕ, ◌≡◌, ◌≢◌, refl, Bool, true, false, ◌==◌, ◌&&◌, List, [], ◌∷◌, has, Bool-cases, inl, inr,
  none, some, arith,
}
use mathlib.Core.Path.{subst}
use lkb.Kernel.ChrdevApi.{ChrdevApi}
use lkb.Mmap.{Driver}
use lkb.Devices.{
  Act, rmmod_mmap, rmmod_ioctl, Outcome, crashes, nothing, System, act, unload_mmap, unload_ioctl,
}
use lkb.Devices.Spec.{Device, vacant, mapped, commands, stuck, is_mapped, is_commands}
use lkb.Devices.Loads.{Represents}
use lkb.Devices.Refine.{act_refines}
use lkb.Devices.Faults.{is_stuck}
use lkb.Devices.Files.{
  FileAct, does, close, Opened, release_by, release_loaded, file_act, run_files, orderly,
  all_orderly,
}
use lkb.Devices.Files.Owned.{Owned, no_crash, Rule-Owned, close-Owned}

and_left : (a b : Bool) → (a && b) ≡ true → a ≡ true
and_left true b h = refl
and_left false b h = h

and_right : (a b : Bool) → (a && b) ≡ true → b ≡ true
and_right true b h = h
and_right false b h = cc

module _ (api : ChrdevApi) (mmap_fops ioctl_fops : ℕ) where
  open api use {fops_of}

  abbrev Sys : Type 0
  Sys = System api mmap_fops ioctl_fops

  abbrev pub Open : Type 0
  Open = Opened api mmap_fops ioctl_fops

  abbrev Stands : Sys → Device → Type 0
  Stands = Represents api mmap_fops ioctl_fops

  abbrev Own : Device → List ℕ → Type 0
  Own = Owned mmap_fops ioctl_fops

  release_own :
      (s : Sys)
      → release_by api mmap_fops ioctl_fops mmap_fops s
        ≡ release_loaded api mmap_fops ioctl_fops s.mmap
  unfolding release_by
  release_own s = let test : (mmap_fops == mmap_fops) ≡ true = ground arith in rw test refl

  -- The file of a module that is loaded.
  release_fine :
      (f : ℕ) (s : Sys)
      → (f ≡ mmap_fops → no_crash (release_loaded api mmap_fops ioctl_fops s.mmap ∷ []) ≡ true)
      → (f ≡ ioctl_fops → s.ioctl ≡ true)
      → no_crash (release_by api mmap_fops ioctl_fops f s ∷ []) ≡ true
  unfolding release_by
  release_fine f s m i = elim (Bool-cases (f == mmap_fops)) [
    | inl e ↦ rw e (m (ground arith))
    | inr e ↦ elim (Bool-cases (f == ioctl_fops)) [
      | inl g ↦ rw (e, g, i (ground arith)) refl
      | inr g ↦ rw (e, g) refl
    ]
  ]

  mapped-loaded :
      (d : Device) (s : Sys)
      → is_mapped d ≡ true
      → Stands s d
      → no_crash (release_loaded api mmap_fops ioctl_fops s.mmap ∷ []) ≡ true
  mapped-loaded (mapped p) s h v = rw v.mmap refl
  mapped-loaded vacant s h v = cc
  mapped-loaded commands s h v = cc
  mapped-loaded stuck s h v = cc

  commands-loaded : (d : Device) (s : Sys) → is_commands d ≡ true → Stands s d → s.ioctl ≡ true
  commands-loaded commands s h v = v.ioctl
  commands-loaded vacant s h v = cc
  commands-loaded (mapped p) s h v = cc
  commands-loaded stuck s h v = cc

  release_file :
      (d : Device) (f : ℕ) (s : Sys) (fs : List ℕ)
      → has f fs ≡ true
      → Stands s d
      → Own d fs
      → no_crash (release_by api mmap_fops ioctl_fops f s ∷ []) ≡ true
  release_file d f s fs h v own =
      release_fine f s (λ e. mapped-loaded d s (own.of_mmap (subst (λ x. has x fs ≡ true) e h)) v)
        (λ e. commands-loaded d s (own.of_ioctl (subst (λ x. has x fs ≡ true) e h)) v)

  record Holds (h : Open) : Type 0 where
    device : Device
    stands : Stands h.system device
    live : is_stuck device ≡ false
    own : Own device h.files

  no_crash-cons :
      (o : Outcome) (os : List Outcome)
      → no_crash (o ∷ []) ≡ true
      → no_crash os ≡ true
      → no_crash (o ∷ os) ≡ true
  no_crash-cons crashes os a b = cc
  no_crash-cons _ os a b = b

  file_act-Holds :
      mmap_fops ≢ ioctl_fops
      → (a : FileAct) (h : Open) → orderly api mmap_fops ioctl_fops a h ≡ true
      → Holds h
      → let r = file_act api mmap_fops ioctl_fops a h in Holds r.0 × (no_crash (r.1 ∷ []) ≡ true)
  unfolding file_act
  file_act-Holds apart (does a) h good inv =
      let (e, rule, v) =
        act_refines api mmap_fops ioctl_fops apart a h.system inv.device inv.stands in
      let (live, own, fine) =
        Rule-Owned api mmap_fops ioctl_fops apart h.system h.files rule inv.stands inv.live inv.own
          good in
      (record { device = e; stands = v; live = live; own = own }, fine)
  file_act-Holds apart (close f) h good inv = elim (Bool-cases (has f h.files)) [
    | inl e ↦ rw e (
      record {
        device = inv.device;
        stands = inv.stands;
        live = inv.live;
        own = close-Owned api mmap_fops ioctl_fops f h.files inv.own;
      },
      release_file inv.device f h.system h.files e inv.stands inv.own,
    )
    | inr e ↦ rw e (inv, refl)
  ]

  run_files-Holds :
      mmap_fops ≢ ioctl_fops
      → (acts : List FileAct) (h : Open) → all_orderly api mmap_fops ioctl_fops acts h ≡ true
      → Holds h
      → let r = run_files api mmap_fops ioctl_fops acts h in Holds r.0 × (no_crash r.1 ≡ true)
  unfolding run_files
  run_files-Holds apart [] h good inv = (inv, refl)
  run_files-Holds apart (a ∷ acts) h good inv =
      let (inv', fine) = file_act-Holds apart a h (and_left _ _ good) inv in
      let (last, rest) =
        run_files-Holds apart acts (file_act api mmap_fops ioctl_fops a h).0 (and_right _ _ good)
          inv' in
      (last, no_crash-cons (file_act api mmap_fops ioctl_fops a h).1 _ fine rest)

  one_loaded :
      (s : System api mmap_fops ioctl_fops) (d : Device)
      → Represents api mmap_fops ioctl_fops s d
      → is_stuck d ≡ false
      → ((s.mmap ≡ none) ⊎ (s.ioctl ≡ false))
        × ((s.mmap ≡ none) × (s.ioctl ≡ false) → fops_of s.table 150 ≡ none)
  one_loaded s vacant v h = (inl v.mmap, λ k. v.registered)
  one_loaded s (mapped p) v h = (inr v.ioctl, λ k. cc)
  one_loaded s commands v h = (inl v.mmap, λ k. cc)
  one_loaded s stuck v h = cc

  -- A module is unloaded, and then one file of its device closed.
  abbrev pub unload_close : Act → ℕ → Open → List Outcome
  unload_close a f h = (run_files api mmap_fops ioctl_fops (does a ∷ close f ∷ []) h).1

  rmmod_open :
      (d : Driver) (h : Open)
      → h.system.mmap ≡ some d
      → has mmap_fops h.files ≡ true
      → unload_close rmmod_mmap mmap_fops h ≡ nothing ∷ crashes ∷ []
  unfolding run_files file_act act unload_mmap
  rmmod_open d h m o =
      let gone : act api mmap_fops ioctl_fops rmmod_mmap h.system
          ≡ unload_mmap api mmap_fops ioctl_fops d h.system =
        rw m refl in
      rw (o, gone, release_own (unload_mmap api mmap_fops ioctl_fops d h.system).0) refl

  rmmod_ioctl_open :
      mmap_fops ≢ ioctl_fops
      → (h : Open) → h.system.ioctl ≡ true
      → has ioctl_fops h.files ≡ true
      → unload_close rmmod_ioctl ioctl_fops h ≡ nothing ∷ crashes ∷ []
  unfolding run_files file_act act unload_ioctl release_by
  rmmod_ioctl_open apart h i o =
      let other : (ioctl_fops == mmap_fops) ≡ false = ground arith in
      let own : (ioctl_fops == ioctl_fops) ≡ true = ground arith in rw (o, i, other, own) refl

  -- From a system in which neither module is loaded, the major number is free and no file is open:
  -- any loads and unloads of the two modules, openings of /dev/mmapchar and closes, where every
  -- load of mmap/code.c gets memory from `kmalloc` and every unload finds no file of its module
  -- open, run no code of a module that is not loaded. After them at most one of the modules is
  -- loaded, and if none is, the number is free. If then a module is loaded and a file of it is
  -- open, its unload goes through, and the close of the file runs code of a module that is not
  -- loaded.
  pub files_lem :
      mmap_fops ≢ ioctl_fops
      → (acts : List FileAct) (s : Sys) → fops_of s.table 150 ≡ none
      → s.mmap ≡ none
      → s.ioctl ≡ false
      → all_orderly api mmap_fops ioctl_fops acts (record { system = s; files = [] }) ≡ true
      → let r = run_files api mmap_fops ioctl_fops acts (record { system = s; files = [] }) in
        let t = r.0.system in
        (no_crash r.1 ≡ true)
        × ((t.mmap ≡ none) ⊎ (t.ioctl ≡ false))
        × ((t.mmap ≡ none) × (t.ioctl ≡ false) → fops_of t.table 150 ≡ none)
        × ((d : Driver)
            → t.mmap ≡ some d
            → has mmap_fops r.0.files ≡ true
            → unload_close rmmod_mmap mmap_fops r.0 ≡ nothing ∷ crashes ∷ [])
        × (t.ioctl ≡ true
            → has ioctl_fops r.0.files ≡ true
            → unload_close rmmod_ioctl ioctl_fops r.0 ≡ nothing ∷ crashes ∷ [])
  files_lem apart acts s free m i good =
      let start : Open = record { system = s; files = [] } in
      let (last, fine) = run_files-Holds apart acts start good (record {
        device = vacant;
        stands = record { registered = free; mmap = m; ioctl = i };
        live = refl;
        own = record { of_mmap = λ h. cc; of_ioctl = λ h. cc };
      }) in
      let t = (run_files api mmap_fops ioctl_fops acts start).0 in
      let (one, free') = one_loaded t.system last.device last.stands last.live in
      (
        fine,
        one,
        free',
        λ d here file. rmmod_open d t here file,
        λ here file. rmmod_ioctl_open apart t here file,
      )
