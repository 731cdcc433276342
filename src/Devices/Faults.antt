-- ===== src/Devices/Faults.antt =====
-- What a failed load of mmap/code.c does to /dev/mmapchar.
use lkb.Common.{
  ℕ, pos, negsuc, lt_int, ◌≡◌, ◌≢◌, refl, ◌∙◌, Bool, true, false, ◌&&◌, List, [], ◌∷◌, none, some,
}
use lkb.Kernel.ChrdevApi.{ChrdevApi}
use lkb.Devices.{
  Act, insmod_mmap, Outcome, loads, opens, closes, crashes, elsewhere, nothing, System, run,
}
use lkb.Devices.Spec.{Device, vacant, mapped, commands, stuck, Rule, Rules, done, more}
use lkb.Devices.Spec.Rule.{
  load_null, refuse_mmap, again_mmap, unload_mmap, absent_mmap, load_ioctl, refuse_ioctl,
  again_ioctl, unload_ioctl, absent_ioctl, open_vacant, open_mapped, open_commands, open_stuck,
}
use lkb.Devices.Loads.{Represents, mmap_null}
use lkb.Devices.Refine.{run_refines, insmod_mmap-absent}

-- No load and no opening succeeds, and every opening crashes.
abbrev pub all_useless : List Outcome → Bool
all_useless [] = true
all_useless (loads e ∷ os) = lt_int e (pos 0) && all_useless os
all_useless (opens e ∷ os) = false
all_useless (closes e ∷ os) = false
all_useless (crashes ∷ os) = all_useless os
all_useless (elsewhere ∷ os) = false
all_useless (nothing ∷ os) = all_useless os

abbrev pub is_stuck : Device → Bool
is_stuck stuck = true
is_stuck _ = false

stuck-Rule :
    {a : Act} {d : Device} {o : Outcome} {e : Device}
    → is_stuck d ≡ true
    → Rule a d o e
    → (os : List Outcome) → all_useless os ≡ true
    → (is_stuck e ≡ true) × (all_useless (o ∷ os) ≡ true)
stuck-Rule h (Rule.load_mmap p ne) os u = cc
stuck-Rule h load_null os u = cc
stuck-Rule h (refuse_mmap p d e k bad) os u = (h, rw bad u)
stuck-Rule h (again_mmap p q) os u = cc
stuck-Rule h (unload_mmap p) os u = cc
stuck-Rule h (absent_mmap d k) os u = (h, u)
stuck-Rule h load_ioctl os u = cc
stuck-Rule h (refuse_ioctl d e k bad) os u = (h, rw bad u)
stuck-Rule h again_ioctl os u = cc
stuck-Rule h unload_ioctl os u = cc
stuck-Rule h (absent_ioctl d k) os u = (h, u)
stuck-Rule h open_vacant os u = cc
stuck-Rule h (open_mapped p) os u = cc
stuck-Rule h open_commands os u = cc
stuck-Rule h open_stuck os u = (h, u)

stuck-Rules :
    {acts : List Act} {d : Device} {os : List Outcome} {e : Device}
    → is_stuck d ≡ true
    → Rules acts d os e
    → (is_stuck e ≡ true) × (all_useless os ≡ true)
stuck-Rules h (done d) = (h, refl)
stuck-Rules h (more {os = os} d e f rule rules) =
    let next = (stuck-Rule h rule [] refl).0 in
    let (last, rest) = stuck-Rules next rules in (last, (stuck-Rule h rule os rest).1)

module _ (api : ChrdevApi) (mmap_fops ioctl_fops : ℕ) where
  open api use {fops_of, register_chrdev}

  stuck-State :
      (s : System api mmap_fops ioctl_fops) (d : Device)
      → is_stuck d ≡ true
      → Represents api mmap_fops ioctl_fops s d
      → Represents api mmap_fops ioctl_fops s stuck
  stuck-State s stuck h v = v
  stuck-State s vacant h v = cc
  stuck-State s (mapped p) h v = cc
  stuck-State s commands h v = cc

  -- From a system in which neither module is loaded: where a load of mmap/code.c registers the
  -- number and gets NULL from `kmalloc`, it returns -1 and the number stays registered. Whatever is
  -- loaded, unloaded and opened after that, every load of either module fails, every opening of
  -- /dev/mmapchar runs code of a module that is not loaded, and at the end neither is loaded and
  -- the number is still registered for mmap/code.c.
  pub stuck_lem :
      mmap_fops ≢ ioctl_fops
      → (acts : List Act) (s : System api mmap_fops ioctl_fops) → s.mmap ≡ none
      → s.ioctl ≡ false
      → lt_int (register_chrdev 150 mmap_fops s.table).0 (pos 0) ≡ false
      → let r = run api mmap_fops ioctl_fops (insmod_mmap 0 ∷ acts) s in
        (os : List Outcome) × (r.1 ≡ loads (negsuc 0) ∷ os)
        × (all_useless os ≡ true)
        × (r.0.mmap ≡ none)
        × (r.0.ioctl ≡ false)
        × (fops_of r.0.table 150 ≡ some mmap_fops)
  unfolding run
  stuck_lem apart acts s m i good =
      let first =
        insmod_mmap-absent api mmap_fops ioctl_fops 0 s m
        ∙ mmap_null api mmap_fops ioctl_fops 0 s good refl in
      let after : System api mmap_fops ioctl_fops = record s {
        table = (register_chrdev 150 mmap_fops s.table).1;
        mmap = none;
      } in
      let (e, rules, v) = run_refines api mmap_fops ioctl_fops apart acts after stuck (record {
        registered = api.fops_of-register 150 mmap_fops s.table 150 good;
        mmap = refl;
        ioctl = i;
      }) in
      let (last, useless) = stuck-Rules refl rules in
      let w = stuck-State (run api mmap_fops ioctl_fops acts after).0 e last v in
      rw first
        ((run api mmap_fops ioctl_fops acts after).1, refl, useless, w.mmap, w.ioctl, w.registered)
