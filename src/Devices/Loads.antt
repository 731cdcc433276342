-- ===== src/Devices/Loads.antt =====
-- The loads of mmap/code.c and ioctl/code.c follow the rules of the abstract device.
use lkb.Common.{
  ℕ, pos, negsuc, lt_int, ◌≡◌, refl, ◌∙◌, sym, Bool, true, false, ◌==◌, ==_iff, Bool-cases, inl,
  inr, Option, none, some, arith,
}
use mathlib.Core.Path.{subst}
use lkb.Kernel.ChrdevApi.{ChrdevApi}
use lkb.Mmap.{Driver, mmap_example_init}
use lkb.Ioctl.{ioctl_init}
use lkb.Mmap.History.{loaded}
use lkb.Devices.{Act, insmod_mmap, insmod_ioctl, Outcome, loads, System, load_mmap, load_ioctl}
use lkb.Devices.Spec.{Device, vacant, mapped, commands, stuck, is_mapped, is_commands, Rule}

module _ (api : ChrdevApi) (mmap_fops ioctl_fops : ℕ) where
  open api use {Table, fops_of, register_chrdev, unregister_chrdev}

  -- What stands in the kernel for each abstract device.
  pub record State (s : System api mmap_fops ioctl_fops) (f : Option ℕ) (m : Option Driver)
      (i : Bool) : Type 0 where
    pub registered : fops_of s.table 150 ≡ f
    pub mmap : s.mmap ≡ m
    pub ioctl : s.ioctl ≡ i

  abbrev pub Represents : System api mmap_fops ioctl_fops → Device → Type 0
  Represents s vacant = State s none none false
  Represents s (mapped p) = State s (some mmap_fops) (some (loaded p)) false
  Represents s commands = State s (some ioctl_fops) none true
  Represents s stuck = State s (some mmap_fops) none false

  -- The outcome and the system that an act leads to are those of a rule.
  abbrev pub Follows : Act → Device → System api mmap_fops ioctl_fops × Outcome → Type 0
  Follows a d r = (e : Device) × Rule a d r.1 e × Represents r.0 e

  -- The results of the two init functions.
  pub mmap_refused :
      (p : ℕ) (s : System api mmap_fops ioctl_fops)
      → let r = register_chrdev 150 mmap_fops s.table in
        lt_int r.0 (pos 0) ≡ true
        → load_mmap api mmap_fops ioctl_fops p s
          ≡ (record s { table = r.1; mmap = none }, loads r.0)
  unfolding load_mmap mmap_example_init
  mmap_refused p s bad = rw bad (rw bad refl)

  pub mmap_null :
      (p : ℕ) (s : System api mmap_fops ioctl_fops)
      → let r = register_chrdev 150 mmap_fops s.table in
        lt_int r.0 (pos 0) ≡ false
        → (p == 0) ≡ true
        → load_mmap api mmap_fops ioctl_fops p s
          ≡ (record s { table = r.1; mmap = none }, loads (negsuc 0))
  unfolding load_mmap mmap_example_init lt_int
  mmap_null p s good null = rw (good, null) refl

  mmap_loaded :
      (p : ℕ) (s : System api mmap_fops ioctl_fops)
      → let r = register_chrdev 150 mmap_fops s.table in
        lt_int r.0 (pos 0) ≡ false
        → (p == 0) ≡ false
        → load_mmap api mmap_fops ioctl_fops p s
          ≡ (record s { table = r.1; mmap = some (loaded p) }, loads (pos 0))
  unfolding load_mmap mmap_example_init lt_int
  mmap_loaded p s good some_buffer = rw (good, some_buffer) refl

  pub ioctl_refused :
      (s : System api mmap_fops ioctl_fops)
      → let r = register_chrdev 150 ioctl_fops s.table in
        lt_int r.0 (pos 0) ≡ true
        → load_ioctl api mmap_fops ioctl_fops s
          ≡ (record s { table = r.1; ioctl = false }, loads r.0)
  unfolding load_ioctl ioctl_init
  ioctl_refused s bad = rw bad (rw bad refl)

  ioctl_loaded :
      (s : System api mmap_fops ioctl_fops)
      → let r = register_chrdev 150 ioctl_fops s.table in
        lt_int r.0 (pos 0) ≡ false
        → load_ioctl api mmap_fops ioctl_fops s
          ≡ (record s { table = r.1; ioctl = true }, loads (pos 0))
  unfolding load_ioctl ioctl_init lt_int
  ioctl_loaded s good = rw good refl

  pub follows :
      {a : Act} {d : Device} {r : System api mmap_fops ioctl_fops × Outcome}
      (t : System api mmap_fops ioctl_fops) (o : Outcome) (e : Device)
      → r ≡ (t, o)
      → Rule a d o e
      → Represents t e
      → Follows a d r
  follows {a} {d} t o e same rule v = subst (Follows a d) (sym same) (e, rule, v)

  -- The registration of one of the modules, where it fails, changes nothing.
  pub kept_mmap :
      (s : System api mmap_fops ioctl_fops) (d : Device)
      → is_mapped d ≡ false
      → lt_int (register_chrdev 150 mmap_fops s.table).0 (pos 0) ≡ true
      → Represents s d
      → Represents (record s { table = (register_chrdev 150 mmap_fops s.table).1; mmap = none }) d
  kept_mmap s vacant h bad v = record {
    registered = api.fops_of-register_failed 150 mmap_fops s.table 150 bad ∙ v.registered;
    mmap = refl;
    ioctl = v.ioctl;
  }
  kept_mmap s commands h bad v = record {
    registered = api.fops_of-register_failed 150 mmap_fops s.table 150 bad ∙ v.registered;
    mmap = refl;
    ioctl = v.ioctl;
  }
  kept_mmap s stuck h bad v = record {
    registered = api.fops_of-register_failed 150 mmap_fops s.table 150 bad ∙ v.registered;
    mmap = refl;
    ioctl = v.ioctl;
  }
  kept_mmap s (mapped p) h bad v = cc

  pub kept_ioctl :
      (s : System api mmap_fops ioctl_fops) (d : Device)
      → is_commands d ≡ false
      → lt_int (register_chrdev 150 ioctl_fops s.table).0 (pos 0) ≡ true
      → Represents s d
      → Represents
          (record s { table = (register_chrdev 150 ioctl_fops s.table).1; ioctl = false })
          d
  kept_ioctl s vacant h bad v = record {
    registered = api.fops_of-register_failed 150 ioctl_fops s.table 150 bad ∙ v.registered;
    mmap = v.mmap;
    ioctl = refl;
  }
  kept_ioctl s commands h bad v = cc
  kept_ioctl s stuck h bad v = record {
    registered = api.fops_of-register_failed 150 ioctl_fops s.table 150 bad ∙ v.registered;
    mmap = v.mmap;
    ioctl = refl;
  }
  kept_ioctl s (mapped p) h bad v = record {
    registered = api.fops_of-register_failed 150 ioctl_fops s.table 150 bad ∙ v.registered;
    mmap = v.mmap;
    ioctl = refl;
  }

  pub load_mmap-vacant :
      (p : ℕ) (s : System api mmap_fops ioctl_fops)
      → Represents s vacant
      → Follows (insmod_mmap p) vacant (load_mmap api mmap_fops ioctl_fops p s)
  load_mmap-vacant p s v =
      elim (Bool-cases (lt_int (register_chrdev 150 mmap_fops s.table).0 (pos 0))) [
        | inl bad ↦
            follows _ _ vacant (mmap_refused p s bad) (Rule.refuse_mmap p vacant _ refl bad)
              (kept_mmap s vacant refl bad v)
        | inr good ↦
            let here = api.fops_of-register 150 mmap_fops s.table 150 good in
            elim (Bool-cases (p == 0)) [
              | inl null ↦
                  let zero_pointer : 0 ≡ p = sym ((==_iff p 0).0 null) in
                  follows _ _ stuck (mmap_null p s good null)
                    (subst (λ q. Rule (insmod_mmap q) vacant (loads (negsuc 0)) stuck) zero_pointer
                      Rule.load_null)
                    (record { registered = here; mmap = refl; ioctl = v.ioctl })
              | inr some_buffer ↦
                  follows _ _ (mapped p) (mmap_loaded p s good some_buffer)
                    (Rule.load_mmap p (ground arith))
                    (record { registered = here; mmap = refl; ioctl = v.ioctl })
            ]
      ]

  pub load_ioctl-vacant :
      (s : System api mmap_fops ioctl_fops)
      → Represents s vacant
      → Follows insmod_ioctl vacant (load_ioctl api mmap_fops ioctl_fops s)
  load_ioctl-vacant s v =
      elim (Bool-cases (lt_int (register_chrdev 150 ioctl_fops s.table).0 (pos 0))) [
        | inl bad ↦
            follows _ _ vacant (ioctl_refused s bad) (Rule.refuse_ioctl vacant _ refl bad)
              (kept_ioctl s vacant refl bad v)
        | inr good ↦ follows _ _ commands (ioctl_loaded s good) Rule.load_ioctl (record {
          registered = api.fops_of-register 150 ioctl_fops s.table 150 good;
          mmap = v.mmap;
          ioctl = refl;
        })
      ]
