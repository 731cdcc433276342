-- ===== src/Kprobe/Tests.antt =====
-- kprobe/code.c and kprobe1/code.c in a kernel that arms every probe but those below the address
-- 4096.
use lkb.Common.{
  ℕ, ℤ, pos, negsuc, ◌≡◌, ◌≢◌, refl, ltb, if◌then◌else◌, [], Option, none, some, arith, is_zero,
  List, ◌==◌,
}
use lkb.Common.Events.{Io, ◌>>=◌, return}
use lkb.Kernel.KprobeApi.{KprobeApi}
use lkb.Kprobe.{address, start, start_named, stops}
use lkb.Kprobe.Session.{trace, Traces, probed}

abbrev arm : ℕ → Option ℕ → ℤ × Option ℕ
arm addr s = if ltb addr 4096 then (negsuc 21, s) else (pos 0, some addr)

arm_lem : (addr : ℕ) (s : Option ℕ) → (arm addr s).0 ≡ pos 0 → (arm addr s).1 ≡ some addr
arm_lem addr s h = ground arith

arm_failed : (addr : ℕ) (s : Option ℕ) → (arm addr s).0 ≢ pos 0 → (arm addr s).1 ≡ s
arm_failed addr s h = ground arith

abbrev run_at : {E : Type 0} → Io E ℤ → Io E (Unit {0}) → Option ℕ → ℕ → List E
run_at pre post none at = []
run_at pre post (some addr) at =
    if at == addr then (pre >>= λ r. if is_zero r then post else return tt).0 else []

run_at-armed :
    {E : Type 0} (pre : Io E ℤ) (post : Io E (Unit {0})) (s : Option ℕ) (addr at : ℕ)
    → s ≡ some addr
    → run_at pre post s at
      ≡ (if at == addr then (pre >>= λ r. if is_zero r then post else return tt).0 else [])
run_at-armed pre post s addr at on = rw on refl

run_at-none :
    {E : Type 0} (pre : Io E ℤ) (post : Io E (Unit {0})) (s : Option ℕ) (at : ℕ)
    → s ≡ none
    → run_at pre post s at ≡ []
run_at-none pre post s at off = rw off refl

abbrev one : KprobeApi
one = record {
  Probes = Option ℕ;
  armed = λ s. s;
  register_kprobe = arm;
  unregister_kprobe = λ s. none;
  armed-register = arm_lem;
  armed-register_failed = arm_failed;
  armed-unregister = λ s. refl;
  execute = run_at;
  execute-armed = run_at-armed;
  execute-none = run_at-none;
}

-- The address that the lookup finds.
abbrev found : ℕ
found = 5000

probed_example :
    let first = start one none in
    let second = start_named one found none in
    (first.1.1 ≡ pos 0)
    × Traces one (arm address none).0 address first.1.0
    × ((stops one first.1.0).1 ≡ none)
    × (found ≡ 0 → (second.1.1 ≡ negsuc 0) × ((at : ℕ) → trace one second.1.0 at ≡ []))
    × (found ≢ 0 → (second.1.1 ≡ pos 0) × Traces one (arm found none).0 found second.1.0)
    × ((stops one second.1.0).1 ≡ none)
probed_example = probed one found none refl
