-- ===== src/Kernel/KprobeApi.antt =====
-- The one probe that a module registers, behind the documented behaviour of linux/kprobes.h.
use lkb.Common.Events.{Io, ◌>>=◌, return}
use lkb.Common.{ℕ, ℤ, pos, ◌≡◌, ◌≢◌, Option, none, some, List, [], is_zero, if◌then◌else◌, ◌==◌}

pub record KprobeApi : Type 1 where
  pub Probes : Type 0
  -- The address at which the probe is armed.
  pub armed : Probes → Option ℕ
  -- 0, or a negative error.
  pub register_kprobe : (addr : ℕ) → Probes → ℤ × Probes
  pub unregister_kprobe : Probes → Probes
  pub armed-register :
      (addr : ℕ) (s : Probes)
      → (register_kprobe addr s).0 ≡ pos 0
      → armed (register_kprobe addr s).1 ≡ some addr
  pub armed-register_failed :
      (addr : ℕ) (s : Probes)
      → (register_kprobe addr s).0 ≢ pos 0
      → armed (register_kprobe addr s).1 ≡ armed s
  -- It does nothing where the probe is not registered.
  pub armed-unregister : (s : Probes) → armed (unregister_kprobe s) ≡ none
  -- The execution of an instruction: where the probe is armed there, its first handler is called,
  -- and its second after the instruction, if the first has returned 0.
  pub execute : {E : Type 0} → Io E ℤ → Io E (Unit {0}) → Probes → (at : ℕ) → List E
  pub execute-armed :
      {E : Type 0} (pre : Io E ℤ) (post : Io E (Unit {0})) (s : Probes) (addr at : ℕ)
      → armed s ≡ some addr
      → execute pre post s at
        ≡ (if at == addr then (pre >>= λ r. if is_zero r then post else return tt).0 else [])
  pub execute-none :
      {E : Type 0} (pre : Io E ℤ) (post : Io E (Unit {0})) (s : Probes) (at : ℕ)
      → armed s ≡ none
      → execute pre post s at ≡ []
