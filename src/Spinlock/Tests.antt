-- ===== src/Spinlock/Tests.antt =====
-- spinlock/code.c over the flags of the lock and of the interrupts, and a count for the bottom halves.
use lkb.Common.{ℕ, suc, ◌-◌, ◌≡◌, refl, pos, Bool, true, false, not, [], ◌∷◌, arith}
use lkb.Kernel.Locks.{SpinApi}
use lkb.Spinlock.{lock_is_taken, already_taken, start, until_restored, start_locks}

record Cpu : Type 0 where
  locked : Bool
  irqs : Bool
  disabled : ℕ

trylock_flag :
    (s : Cpu)
    → s.locked ≡ true
    → ◌≡◌ {A = Bool × Cpu} (not s.locked, record s { locked = true }) (false, s)
trylock_flag s e = ground arith

less_one : (s : Cpu) (n : ℕ) → s.disabled ≡ suc n → s.disabled - 1 ≡ n
less_one s n e = omega arith

abbrev flags : SpinApi
flags = record {
  State = Cpu;
  spin_is_locked = λ s. s.locked;
  irqs_on = λ s. s.irqs;
  bh_disabled = λ s. s.disabled;
  spin_lock_init = λ s. record s { locked = false };
  spin_lock = λ s. record s { locked = true };
  spin_trylock = λ s. (not s.locked, record s { locked = true });
  spin_unlock = λ s. record s { locked = false };
  spin_lock_irqsave = λ s. (s.irqs, record s { locked = true; irqs = false });
  spin_unlock_irqrestore = λ b s. record s { locked = false; irqs = b };
  spin_lock_irq = λ s. record s { locked = true; irqs = false };
  spin_unlock_irq = λ s. record s { locked = false; irqs = true };
  spin_lock_bh = λ s. record s { locked = true; disabled = suc s.disabled };
  spin_unlock_bh = λ s. record s { locked = false; disabled = s.disabled - 1 };
  init_free = λ s. refl;
  lock_taken = λ s. refl;
  trylock_busy = trylock_flag;
  irqsave_taken = λ s. refl;
  irq_taken = λ s. refl;
  bh_taken = λ s. refl;
  unlock_free = λ s e. refl;
  irqrestore_free = λ b s e. refl;
  unlock_irq_free = λ s e. refl;
  unlock_bh_free = λ s e. refl;
  irqsave_flags = λ s. refl;
  irqsave_off = λ s. refl;
  irqrestore = λ b s. refl;
  lock_irq_off = λ s. refl;
  unlock_irq_on = λ s. refl;
  init_irqs = λ s. refl;
  lock_irqs = λ s. refl;
  unlock_irqs = λ s. refl;
  lock_bh_irqs = λ s. refl;
  unlock_bh_irqs = λ s. refl;
  lock_bh_disabled = λ s. refl;
  unlock_bh_disabled = less_one;
  init_disabled = λ s. refl;
  lock_disabled = λ s. refl;
  unlock_disabled = λ s. refl;
  irqsave_disabled = λ s. refl;
  lock_irq_disabled = λ s. refl;
  unlock_irq_disabled = λ s. refl;
  irqrestore_disabled = λ b s. refl;
}

abbrev quiet : Cpu
quiet = record { locked = false; irqs = false; disabled = 1 }

start_locks_example :
    ((start flags quiet).0 ≡ lock_is_taken ∷ already_taken ∷ [])
    × ((start flags quiet).1.1 ≡ pos 0)
    × ((start flags quiet).1.0.locked ≡ false)
    × ((until_restored flags quiet).1.irqs ≡ false)
    × ((start flags quiet).1.0.irqs ≡ true)
    × ((start flags quiet).1.0.disabled ≡ 1)
start_locks_example = start_locks flags quiet
