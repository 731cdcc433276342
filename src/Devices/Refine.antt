-- ===== src/Devices/Refine.antt =====
-- mmap/code.c and ioctl/code.c together follow the rules of the abstract device.
use lkb.Common.{
  ℕ, pos, ◌≡◌, ◌≢◌, refl, ◌∙◌, ap, true, false, ◌==◌, List, [], ◌∷◌, none, some, arith,
}
use lkb.Kernel.ChrdevApi.{ChrdevApi}
use lkb.Mmap.{mmap_example_exit, dev_open as open_mmap}
use lkb.Ioctl.{ioctl_exit, dev_open as open_ioctl}
use lkb.Devices.{
  Act, insmod_mmap, rmmod_mmap, insmod_ioctl, rmmod_ioctl, open_device, Outcome, opens, crashes,
  enxio, System, load_mmap, load_ioctl, unload_mmap, unload_ioctl, open_by, open_node, act, run,
}
use lkb.Devices.Spec.{
  Device, vacant, mapped, commands, stuck, is_mapped, is_commands, Rule, Rules, done, more,
}
use lkb.Devices.Loads.{
  Represents, Follows, follows, kept_mmap, kept_ioctl, mmap_refused, ioctl_refused,
  load_mmap-vacant, load_ioctl-vacant,
}

module _ (api : ChrdevApi) (mmap_fops ioctl_fops : ℕ) where
  open api use {Table, fops_of, register_chrdev, unregister_chrdev}

  abbrev Sys : Type 0
  Sys = System api mmap_fops ioctl_fops

  abbrev Stands : Sys → Device → Type 0
  Stands = Represents api mmap_fops ioctl_fops

  abbrev Goes : Act → Device → Sys × Outcome → Type 0
  Goes = Follows api mmap_fops ioctl_fops

  not_mapped-none : (s : Sys) (d : Device) → is_mapped d ≡ false → Stands s d → s.mmap ≡ none
  not_mapped-none s vacant h v = v.mmap
  not_mapped-none s commands h v = v.mmap
  not_mapped-none s stuck h v = v.mmap
  not_mapped-none s (mapped p) h v = cc

  not_commands-false : (s : Sys) (d : Device) → is_commands d ≡ false → Stands s d → s.ioctl ≡ false
  not_commands-false s vacant h v = v.ioctl
  not_commands-false s commands h v = cc
  not_commands-false s stuck h v = v.ioctl
  not_commands-false s (mapped p) h v = v.ioctl

  pub insmod_mmap-absent :
      (p : ℕ) (s : Sys)
      → s.mmap ≡ none
      → act api mmap_fops ioctl_fops (insmod_mmap p) s ≡ load_mmap api mmap_fops ioctl_fops p s
  unfolding act
  insmod_mmap-absent p s e = rw e refl

  insmod_ioctl-absent :
      (s : Sys)
      → s.ioctl ≡ false
      → act api mmap_fops ioctl_fops insmod_ioctl s ≡ load_ioctl api mmap_fops ioctl_fops s
  unfolding act
  insmod_ioctl-absent s e = rw e refl

  -- A load where another module has the device.
  taken_mmap :
      (p : ℕ) (s : Sys) (d : Device) (f : ℕ)
      → is_mapped d ≡ false
      → fops_of s.table 150 ≡ some f
      → Stands s d
      → Goes (insmod_mmap p) d (act api mmap_fops ioctl_fops (insmod_mmap p) s)
  taken_mmap p s d f h e v =
      let bad = api.register-taken 150 mmap_fops f s.table e in
      follows api mmap_fops ioctl_fops _ _ d
        (insmod_mmap-absent p s (not_mapped-none s d h v)
          ∙ mmap_refused api mmap_fops ioctl_fops p s bad)
        (Rule.refuse_mmap p d _ h bad) (kept_mmap api mmap_fops ioctl_fops s d h bad v)

  taken_ioctl :
      (s : Sys) (d : Device) (f : ℕ)
      → is_commands d ≡ false
      → fops_of s.table 150 ≡ some f
      → Stands s d
      → Goes insmod_ioctl d (act api mmap_fops ioctl_fops insmod_ioctl s)
  taken_ioctl s d f h e v =
      let bad = api.register-taken 150 ioctl_fops f s.table e in
      follows api mmap_fops ioctl_fops _ _ d
        (insmod_ioctl-absent s (not_commands-false s d h v)
          ∙ ioctl_refused api mmap_fops ioctl_fops s bad)
        (Rule.refuse_ioctl d _ h bad) (kept_ioctl api mmap_fops ioctl_fops s d h bad v)

  own : (f : ℕ) → (f == f) ≡ true
  own f = ground arith

  open_none : (s : Sys) → Stands s vacant → open_node api mmap_fops ioctl_fops s ≡ opens enxio
  unfolding open_node open_by
  open_none s v = ap (λ f. open_by api mmap_fops ioctl_fops f s) v.registered

  open_mapped :
      (p : ℕ) (s : Sys) → Stands s (mapped p) → open_node api mmap_fops ioctl_fops s ≡ opens (pos 0)
  unfolding open_node open_by open_mmap
  open_mapped p s v =
      ap (λ f. open_by api mmap_fops ioctl_fops f s) v.registered ∙ rw (own mmap_fops, v.mmap) refl

  open_commands :
      mmap_fops ≢ ioctl_fops
      → (s : Sys) → Stands s commands
      → open_node api mmap_fops ioctl_fops s ≡ opens (pos 0)
  unfolding open_node open_by open_ioctl
  open_commands apart s v =
      let other : (ioctl_fops == mmap_fops) ≡ false = ground arith in
      ap (λ f. open_by api mmap_fops ioctl_fops f s) v.registered
      ∙ rw (other, own ioctl_fops, v.ioctl) refl

  open_stuck : (s : Sys) → Stands s stuck → open_node api mmap_fops ioctl_fops s ≡ crashes
  unfolding open_node open_by
  open_stuck s v =
      ap (λ f. open_by api mmap_fops ioctl_fops f s) v.registered ∙ rw (own mmap_fops, v.mmap) refl

  opened :
      (s : Sys) (d : Device) (o : Outcome)
      → open_node api mmap_fops ioctl_fops s ≡ o
      → Rule open_device d o d
      → Stands s d
      → Goes open_device d (act api mmap_fops ioctl_fops open_device s)
  unfolding act
  opened s d o e rule v = follows api mmap_fops ioctl_fops s o d (ap (λ o. (s, o)) e) rule v

  pub act_refines :
      mmap_fops ≢ ioctl_fops
      → (a : Act) (s : Sys) (d : Device) → Stands s d
      → Goes a d (act api mmap_fops ioctl_fops a s)
  unfolding act unload_mmap unload_ioctl mmap_example_exit ioctl_exit
  act_refines apart (insmod_mmap p) s vacant v =
      rw (insmod_mmap-absent p s v.mmap) (load_mmap-vacant api mmap_fops ioctl_fops p s v)
  act_refines apart (insmod_mmap p) s (mapped q) v =
      follows api mmap_fops ioctl_fops s _ (mapped q) (rw (v.mmap) refl) (Rule.again_mmap p q) v
  act_refines apart (insmod_mmap p) s commands v = taken_mmap p s commands _ refl v.registered v
  act_refines apart (insmod_mmap p) s stuck v = taken_mmap p s stuck _ refl v.registered v
  act_refines apart rmmod_mmap s vacant v =
      follows api mmap_fops ioctl_fops s _ vacant (rw (v.mmap) refl) (Rule.absent_mmap vacant refl)
        v
  act_refines apart rmmod_mmap s (mapped p) v =
      follows api mmap_fops ioctl_fops _ _ vacant (rw (v.mmap) refl) (Rule.unload_mmap p) (record {
        registered = api.fops_of-unregister 150 s.table 150;
        mmap = refl;
        ioctl = v.ioctl;
      })
  act_refines apart rmmod_mmap s commands v =
      follows api mmap_fops ioctl_fops s _ commands (rw (v.mmap) refl)
        (Rule.absent_mmap commands refl) v
  act_refines apart rmmod_mmap s stuck v =
      follows api mmap_fops ioctl_fops s _ stuck (rw (v.mmap) refl) (Rule.absent_mmap stuck refl) v
  act_refines apart insmod_ioctl s vacant v =
      rw (insmod_ioctl-absent s v.ioctl) (load_ioctl-vacant api mmap_fops ioctl_fops s v)
  act_refines apart insmod_ioctl s (mapped q) v = taken_ioctl s (mapped q) _ refl v.registered v
  act_refines apart insmod_ioctl s commands v =
      follows api mmap_fops ioctl_fops s _ commands (rw (v.ioctl) refl) Rule.again_ioctl v
  act_refines apart insmod_ioctl s stuck v = taken_ioctl s stuck _ refl v.registered v
  act_refines apart rmmod_ioctl s vacant v =
      follows api mmap_fops ioctl_fops s _ vacant (rw (v.ioctl) refl)
        (Rule.absent_ioctl vacant refl) v
  act_refines apart rmmod_ioctl s (mapped p) v =
      follows api mmap_fops ioctl_fops s _ (mapped p) (rw (v.ioctl) refl)
        (Rule.absent_ioctl (mapped p) refl) v
  act_refines apart rmmod_ioctl s commands v =
      follows api mmap_fops ioctl_fops _ _ vacant (rw (v.ioctl) refl) Rule.unload_ioctl (record {
        registered = api.fops_of-unregister 150 s.table 150;
        mmap = v.mmap;
        ioctl = refl;
      })
  act_refines apart rmmod_ioctl s stuck v =
      follows api mmap_fops ioctl_fops s _ stuck (rw (v.ioctl) refl) (Rule.absent_ioctl stuck refl)
        v
  act_refines apart open_device s vacant v = opened s vacant _ (open_none s v) Rule.open_vacant v
  act_refines apart open_device s (mapped p) v =
      opened s (mapped p) _ (open_mapped p s v) (Rule.open_mapped p) v
  act_refines apart open_device s commands v =
      opened s commands _ (open_commands apart s v) Rule.open_commands v
  act_refines apart open_device s stuck v = opened s stuck _ (open_stuck s v) Rule.open_stuck v

  -- From a system that stands for a device, with the two structures at different addresses: any
  -- loads and unloads of the two modules and openings of /dev/mmapchar have outcomes that the rules
  -- give, and lead to a system that stands for the device that the rules lead to.
  pub run_refines :
      mmap_fops ≢ ioctl_fops
      → (acts : List Act) (s : Sys) (d : Device) → Stands s d
      → let r = run api mmap_fops ioctl_fops acts s in
        (e : Device) × Rules acts d r.1 e × Stands r.0 e
  unfolding run
  run_refines apart [] s d v = (d, done d, v)
  run_refines apart (a ∷ acts) s d v =
      let (e, rule, w) = act_refines apart a s d v in
      let (f, rules, x) = run_refines apart acts (act api mmap_fops ioctl_fops a s).0 e w in
      (f, more d e f rule rules, x)
