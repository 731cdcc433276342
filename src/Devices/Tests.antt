-- ===== src/Devices/Tests.antt =====
-- mmap/code.c and ioctl/code.c with a table of devices that is a function.
use lkb.Common.{
  has, ◌+◌, ◌/◌, ◌%◌, ◌^◌, ℕ, ℤ, pos, negsuc, lt_int, ◌≡◌, ◌≢◌, ◌⊎◌, refl, ◌==◌, if◌then◌else◌,
  Bool, true, false, List, [], ◌∷◌, Option, none, some, arith,
}
use lkb.Kernel.ChrdevApi.{ChrdevApi}
use lkb.Kernel.UserSpace.{UserApi}
use lkb.Kernel.FileOps.{Vma}
use lkb.Mmap.{Driver, kfree, fops as mmap_fops}
use lkb.Mmap.History.{buffer_ok, loaded}
use lkb.Mmap.Program.{module_event, failed_to_mmap, main as mmap_main}
use lkb.Ioctl.{Commands, opened, closed, fops as ioctl_fops}
use lkb.Ioctl.Program.{module_line, error_ioctl, set_done, main as ioctl_main}
use lkb.Devices.Programs.{foreign_session, wrong_device_lem}
use lkb.Devices.{
  Act, insmod_mmap, rmmod_mmap, insmod_ioctl, rmmod_ioctl, open_device, Outcome, loads, crashes,
  nothing, System, run,
}
use lkb.Devices.Spec.{Device, vacant, Rules}
use lkb.Devices.Loads.{Represents}
use lkb.Devices.Refine.{run_refines}
use lkb.Devices.Files.{FileAct, does, close, run_files}
use lkb.Devices.Files.Owned.{no_crash}
use lkb.Devices.Files.Closing.{unload_close, files_lem}
use lkb.Devices.Faults.{all_useless, stuck_lem}

abbrev Numbers : Type 0
Numbers = ℕ → Option ℕ

abbrev put : (major f : ℕ) → Numbers → Option ℕ → ℤ × Numbers
put major f t none = (pos 0, λ n. if n == major then some f else t n)
put major f t (some g) = (negsuc 15, t)

put-taken :
    (major f g : ℕ) (t : Numbers) (q : Option ℕ)
    → q ≡ some g
    → lt_int (put major f t q).0 (pos 0) ≡ true
unfolding lt_int
put-taken major f g t none e = cc
put-taken major f g t (some h) e = refl

put-done :
    (major f : ℕ) (t : Numbers) (q : Option ℕ) (n : ℕ)
    → lt_int (put major f t q).0 (pos 0) ≡ false
    → (put major f t q).1 n ≡ (if n == major then some f else t n)
unfolding lt_int
put-done major f t none n e = refl
put-done major f t (some h) n e = cc

put-failed :
    (major f : ℕ) (t : Numbers) (q : Option ℕ) (n : ℕ)
    → lt_int (put major f t q).0 (pos 0) ≡ true
    → (put major f t q).1 n ≡ t n
unfolding lt_int
put-failed major f t none n e = cc
put-failed major f t (some h) n e = refl

abbrev numbers : ChrdevApi
numbers = record {
  Table = Numbers;
  fops_of = λ t n. t n;
  register_chrdev = λ major f t. put major f t (t major);
  unregister_chrdev = λ major t n. if n == major then none else t n;
  register-taken = λ major f g t e. put-taken major f g t (t major) e;
  fops_of-register = λ major f t n e. put-done major f t (t major) n e;
  fops_of-register_failed = λ major f t n e. put-failed major f t (t major) n e;
  fops_of-unregister = λ major t n. refl;
}

abbrev empty : System numbers 5000 6000
empty = record { table = λ n. none; mmap = none; ioctl = false }

-- The second module is refused until the first one is gone.
abbrev acts : List Act
acts = insmod_mmap 40960 ∷ insmod_ioctl ∷ open_device ∷ rmmod_mmap ∷ insmod_ioctl ∷ open_device ∷ []

run_refines_example :
    let r = run numbers 5000 6000 acts empty in
    (e : Device) × Rules acts vacant r.1 e × Represents numbers 5000 6000 r.0 e
run_refines_example =
    run_refines numbers 5000 6000 (omega arith) acts empty vacant
      (record { registered = refl; mmap = refl; ioctl = refl })

-- mmap/code.c is loaded, its device opened twice and closed once.
abbrev file_acts : List FileAct
file_acts = does (insmod_mmap 40960) ∷ does open_device ∷ does open_device ∷ close 5000 ∷ []

files_lem_example :
    let r = run_files numbers 5000 6000 file_acts (record { system = empty; files = [] }) in
    let t = r.0.system in
    (no_crash r.1 ≡ true)
    × ((t.mmap ≡ none) ⊎ (t.ioctl ≡ false))
    × ((t.mmap ≡ none) × (t.ioctl ≡ false) → t.table 150 ≡ none)
    × ((d : Driver)
        → t.mmap ≡ some d
        → has 5000 r.0.files ≡ true
        → unload_close numbers 5000 6000 rmmod_mmap 5000 r.0 ≡ nothing ∷ crashes ∷ [])
    × (t.ioctl ≡ true
        → has 6000 r.0.files ≡ true
        → unload_close numbers 5000 6000 rmmod_ioctl 6000 r.0 ≡ nothing ∷ crashes ∷ [])
files_lem_example = files_lem numbers 5000 6000 (omega arith) file_acts empty refl refl refl refl

stuck_lem_example :
    let r = run numbers 5000 6000 (insmod_mmap 0 ∷ acts) empty in
    (os : List Outcome) × (r.1 ≡ loads (negsuc 0) ∷ os)
    × (all_useless os ≡ true)
    × (r.0.mmap ≡ none)
    × (r.0.ioctl ≡ false)
    × (r.0.table 150 ≡ some 5000)
unfolding lt_int
stuck_lem_example = stuck_lem numbers 5000 6000 (omega arith) acts empty refl refl refl

abbrev direct : ℕ → ℕ
direct a = a + 8192

abbrev accepted : (start pfn size prot : ℕ) → ℤ
accepted start pfn size prot = pos 0

abbrev area : Vma
area = record { vm_start = 4096; vm_end = 8192; vm_pgoff = 0; vm_page_prot = 3 }

-- A process that keeps one number, and to and from which no copy succeeds.
abbrev keep : ℕ → ℕ → ℕ
keep v u = v

abbrev cell : UserApi
cell = record {
  User = ℕ;
  byte = λ u a. u / 256 ^ a % 256;
  copy_to_user = λ to v n u. (n, u);
  copy_from_user = λ from n u. (n, 0);
  stored = λ to v n u i e lt. absurd (omega arith);
  kept = λ to v n u a h. refl;
  fetched = λ from n u i e lt. absurd (omega arith);
}

abbrev queries : Commands
queries = record {
  get = 1;
  clr = 2;
  set = 3;
  get_clr = omega arith;
  get_set = omega arith;
  clr_set = omega arith;
}

wrong_device_lem_example :
    (ioctl_main (mmap_fops direct accepted) queries keep (pos 3) 40 (loaded 40960) 7
      ≡ (error_ioctl ∷ set_done ∷ module_line (kfree 40960) ∷ [], (loaded 40960, 140, pos 0)))
    × (buffer_ok none (foreign_session direct accepted queries keep (pos 3) 40960 40 7) ≡ false)
    × (mmap_main (ioctl_fops cell queries) (pos 3) (λ i. 0) area tt
        ≡ (module_event opened ∷ failed_to_mmap ∷ module_event closed ∷ [], (tt, negsuc 0)))
unfolding lkb.Common.lt_int
wrong_device_lem_example =
    wrong_device_lem direct accepted queries cell keep (pos 3) 40 40960 7 (λ i. 0) area refl
      (omega arith)
