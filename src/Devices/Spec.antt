-- ===== src/Devices/Spec.antt =====
-- What /dev/mmapchar does while root loads and unloads mmap/code.c and ioctl/code.c, as an abstract
-- machine.
use lkb.Common.{ℕ, ℤ, pos, negsuc, lt_int, ◌≡◌, ◌≢◌, Bool, true, false, List, [], ◌∷◌}
use lkb.Devices.{
  Act, insmod_mmap, rmmod_mmap, insmod_ioctl, rmmod_ioctl, open_device, Outcome, loads, opens,
  crashes, nothing, enxio,
}

-- Nobody has the device; mmap/code.c with its buffer at p; ioctl/code.c; mmap/code.c, which is not
-- loaded any more.
pub data Device : Type 0 where
  vacant : Device
  mapped : (p : ℕ) → Device
  commands : Device
  stuck : Device

abbrev pub is_mapped : Device → Bool
is_mapped (mapped p) = true
is_mapped _ = false

abbrev pub is_commands : Device → Bool
is_commands commands = true
is_commands _ = false

pub data Rule : Act → Device → Outcome → Device → Type 0 where
  load_mmap : (p : ℕ) → p ≢ 0 → Rule (insmod_mmap p) vacant (loads (pos 0)) (mapped p)
  load_null : Rule (insmod_mmap 0) vacant (loads (negsuc 0)) stuck
  refuse_mmap :
      (p : ℕ) (d : Device) (e : ℤ)
      → is_mapped d ≡ false
      → lt_int e (pos 0) ≡ true
      → Rule (insmod_mmap p) d (loads e) d
  again_mmap : (p q : ℕ) → Rule (insmod_mmap p) (mapped q) nothing (mapped q)
  unload_mmap : (p : ℕ) → Rule rmmod_mmap (mapped p) nothing vacant
  absent_mmap : (d : Device) → is_mapped d ≡ false → Rule rmmod_mmap d nothing d
  load_ioctl : Rule insmod_ioctl vacant (loads (pos 0)) commands
  refuse_ioctl :
      (d : Device) (e : ℤ)
      → is_commands d ≡ false
      → lt_int e (pos 0) ≡ true
      → Rule insmod_ioctl d (loads e) d
  again_ioctl : Rule insmod_ioctl commands nothing commands
  unload_ioctl : Rule rmmod_ioctl commands nothing vacant
  absent_ioctl : (d : Device) → is_commands d ≡ false → Rule rmmod_ioctl d nothing d
  open_vacant : Rule open_device vacant (opens enxio) vacant
  open_mapped : (p : ℕ) → Rule open_device (mapped p) (opens (pos 0)) (mapped p)
  open_commands : Rule open_device commands (opens (pos 0)) commands
  open_stuck : Rule open_device stuck crashes stuck

-- The acts, with the outcome of each, lead from one device to another.
pub data Rules : List Act → Device → List Outcome → Device → Type 0 where
  done : (d : Device) → Rules [] d [] d
  more :
      {a : Act} {acts : List Act} {o : Outcome} {os : List Outcome} (d e f : Device)
      → Rule a d o e
      → Rules acts e os f
      → Rules (a ∷ acts) d (o ∷ os) f
