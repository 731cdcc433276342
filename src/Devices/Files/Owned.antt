-- ===== src/Devices/Files/Owned.antt =====
-- An act and a `close` keep the open files of /dev/mmapchar those of the module that has the
-- device.
use lkb.Common.{
  ℕ, ◌≡◌, ◌≢◌, refl, sym, Bool, true, false, List, [], ◌∷◌, has, erase, has-erase_other, arith,
}
use lkb.Kernel.ChrdevApi.{ChrdevApi}
use lkb.Devices.{Act, Outcome, crashes, System}
use lkb.Devices.Spec.{Device, is_mapped, is_commands, Rule}
use lkb.Devices.Loads.{Represents}
use lkb.Devices.Faults.{is_stuck}
use lkb.Devices.Files.{does, Opened, files_after, orderly}

has-other : (a b : ℕ) (fs : List ℕ) → a ≢ b → has a (b ∷ fs) ≡ true → has a fs ≡ true
has-other a b fs apart h = ground arith

has-erased : (a n : ℕ) (fs : List ℕ) → has a (erase n fs) ≡ true → has a fs ≡ true
has-erased a n fs h = ground (arith, has-erase_other a n fs)

-- No opening and no close crashes.
abbrev pub no_crash : List Outcome → Bool
no_crash [] = true
no_crash (crashes ∷ os) = false
no_crash (_ ∷ os) = no_crash os

-- The open files are those of the module that has the device.
pub record Owned (mmap_fops ioctl_fops : ℕ) (d : Device) (fs : List ℕ) : Type 0 where
  pub of_mmap : has mmap_fops fs ≡ true → is_mapped d ≡ true
  pub of_ioctl : has ioctl_fops fs ≡ true → is_commands d ≡ true

module _ (api : ChrdevApi) (mmap_fops ioctl_fops : ℕ) where
  open api use {fops_of}

  abbrev Sys : Type 0
  Sys = System api mmap_fops ioctl_fops

  abbrev Open : Type 0
  Open = Opened api mmap_fops ioctl_fops

  abbrev Stands : Sys → Device → Type 0
  Stands = Represents api mmap_fops ioctl_fops

  abbrev Own : Device → List ℕ → Type 0
  Own = Owned mmap_fops ioctl_fops

  -- An act that follows a rule.
  pub Rule-Owned :
      mmap_fops ≢ ioctl_fops
      → {a : Act} {d e : Device} {o : Outcome} (s : Sys) (fs : List ℕ) → Rule a d o e
      → Stands s d
      → is_stuck d ≡ false
      → Own d fs
      → orderly api mmap_fops ioctl_fops (does a) (record { system = s; files = fs }) ≡ true
      → (is_stuck e ≡ false)
        × Own e (files_after a o (fops_of s.table 150) fs)
        × (no_crash (o ∷ []) ≡ true)
  Rule-Owned apart s fs (Rule.load_mmap p ne) v live own good =
      (refl, record { of_mmap = λ h. refl; of_ioctl = λ h. let e = own.of_ioctl h in cc }, refl)
  Rule-Owned apart s fs Rule.load_null v live own good = cc
  Rule-Owned apart s fs (Rule.refuse_mmap p d e k bad) v live own good = (live, own, refl)
  Rule-Owned apart s fs (Rule.again_mmap p q) v live own good = (live, own, refl)
  Rule-Owned apart s fs (Rule.unload_mmap p) v live own good = (
    refl,
    record {
      of_mmap = λ h. let e = own.of_mmap h in cc;
      of_ioctl = λ h. let e = own.of_ioctl h in cc;
    },
    refl,
  )
  Rule-Owned apart s fs (Rule.absent_mmap d k) v live own good = (live, own, refl)
  Rule-Owned apart s fs Rule.load_ioctl v live own good =
      (refl, record { of_mmap = λ h. let e = own.of_mmap h in cc; of_ioctl = λ h. refl }, refl)
  Rule-Owned apart s fs (Rule.refuse_ioctl d e k bad) v live own good = (live, own, refl)
  Rule-Owned apart s fs Rule.again_ioctl v live own good = (live, own, refl)
  Rule-Owned apart s fs Rule.unload_ioctl v live own good = (
    refl,
    record {
      of_mmap = λ h. let e = own.of_mmap h in cc;
      of_ioctl = λ h. let e = own.of_ioctl h in cc;
    },
    refl,
  )
  Rule-Owned apart s fs (Rule.absent_ioctl d k) v live own good = (live, own, refl)
  Rule-Owned apart s fs Rule.open_vacant v live own good = rw v.registered (refl, own, refl)
  Rule-Owned apart s fs (Rule.open_mapped p) v live own good = rw v.registered (
    refl,
    record {
      of_mmap = λ h. refl;
      of_ioctl = λ h.
          let e = own.of_ioctl (has-other ioctl_fops mmap_fops fs (λ q. apart (sym q)) h) in cc;
    },
    refl,
  )
  Rule-Owned apart s fs Rule.open_commands v live own good = rw v.registered (
    refl,
    record {
      of_mmap = λ h. let e = own.of_mmap (has-other mmap_fops ioctl_fops fs apart h) in cc;
      of_ioctl = λ h. refl;
    },
    refl,
  )
  Rule-Owned apart s fs Rule.open_stuck v live own good = cc

  -- A close of an open file.
  pub close-Owned : {d : Device} (f : ℕ) (fs : List ℕ) → Own d fs → Own d (erase f fs)
  close-Owned f fs own = record {
    of_mmap = λ h. own.of_mmap (has-erased mmap_fops f fs h);
    of_ioctl = λ h. own.of_ioctl (has-erased ioctl_fops f fs h);
  }
