-- ===== src/Kernel/Locks.antt =====
-- `struct mutex` and `spinlock_t` behind their documented behaviour.
use lkb.Common.{ℕ, suc, ◌≡◌, Bool, true, false}

pub record MutexApi : Type 1 where
  pub Mutex : Type 0
  pub mutex_init : Mutex
  pub mutex_is_locked : Mutex → Bool
  -- Taken at last, however long that lasts.
  pub mutex_lock : Mutex → Mutex
  -- Whether the mutex was free and is taken now.
  pub mutex_trylock : Mutex → Bool × Mutex
  -- The first argument says whether a signal comes first; the first result, whether the mutex is
  -- taken.
  pub mutex_lock_interruptible : Bool → Mutex → Bool × Mutex
  pub mutex_lock_killable : Bool → Mutex → Bool × Mutex
  pub mutex_unlock : Mutex → Mutex
  pub init_free : mutex_is_locked mutex_init ≡ false
  pub lock_taken : (m : Mutex) → mutex_is_locked (mutex_lock m) ≡ true
  pub trylock_busy : (m : Mutex) → mutex_is_locked m ≡ true → mutex_trylock m ≡ (false, m)
  pub interrupted : (m : Mutex) → mutex_lock_interruptible true m ≡ (false, m)
  pub uninterrupted : (m : Mutex) → mutex_lock_interruptible false m ≡ (true, mutex_lock m)
  pub killed : (m : Mutex) → mutex_lock_killable true m ≡ (false, m)
  pub not_killed : (m : Mutex) → mutex_lock_killable false m ≡ (true, mutex_lock m)
  -- Only a locked mutex may be unlocked.
  pub unlock_free :
      (m : Mutex) → mutex_is_locked m ≡ true → mutex_is_locked (mutex_unlock m) ≡ false

-- A spin lock and the interrupt state of the processor that uses it, in a kernel for several
-- processors (for one processor `spin_is_locked` and `spin_trylock` say nothing of the lock).
pub record SpinApi : Type 1 where
  pub State : Type 0
  pub spin_is_locked : State → Bool
  pub irqs_on : State → Bool
  -- How often the bottom halves are disabled; they run where it is 0.
  pub bh_disabled : State → ℕ
  pub spin_lock_init : State → State
  pub spin_lock : State → State
  pub spin_trylock : State → Bool × State
  pub spin_unlock : State → State
  -- The saved flags and the new state.
  pub spin_lock_irqsave : State → Bool × State
  pub spin_unlock_irqrestore : Bool → State → State
  pub spin_lock_irq : State → State
  pub spin_unlock_irq : State → State
  pub spin_lock_bh : State → State
  pub spin_unlock_bh : State → State
  pub init_free : (s : State) → spin_is_locked (spin_lock_init s) ≡ false
  pub lock_taken : (s : State) → spin_is_locked (spin_lock s) ≡ true
  pub trylock_busy : (s : State) → spin_is_locked s ≡ true → spin_trylock s ≡ (false, s)
  pub irqsave_taken : (s : State) → spin_is_locked (spin_lock_irqsave s).1 ≡ true
  pub irq_taken : (s : State) → spin_is_locked (spin_lock_irq s) ≡ true
  pub bh_taken : (s : State) → spin_is_locked (spin_lock_bh s) ≡ true
  -- Only a lock that is held may be released.
  pub unlock_free : (s : State) → spin_is_locked s ≡ true → spin_is_locked (spin_unlock s) ≡ false
  pub irqrestore_free :
      (b : Bool) (s : State)
      → spin_is_locked s ≡ true
      → spin_is_locked (spin_unlock_irqrestore b s) ≡ false
  pub unlock_irq_free :
      (s : State) → spin_is_locked s ≡ true → spin_is_locked (spin_unlock_irq s) ≡ false
  pub unlock_bh_free :
      (s : State) → spin_is_locked s ≡ true → spin_is_locked (spin_unlock_bh s) ≡ false
  pub irqsave_flags : (s : State) → (spin_lock_irqsave s).0 ≡ irqs_on s
  pub irqsave_off : (s : State) → irqs_on (spin_lock_irqsave s).1 ≡ false
  pub irqrestore : (b : Bool) (s : State) → irqs_on (spin_unlock_irqrestore b s) ≡ b
  pub lock_irq_off : (s : State) → irqs_on (spin_lock_irq s) ≡ false
  pub unlock_irq_on : (s : State) → irqs_on (spin_unlock_irq s) ≡ true
  pub init_irqs : (s : State) → irqs_on (spin_lock_init s) ≡ irqs_on s
  pub lock_irqs : (s : State) → irqs_on (spin_lock s) ≡ irqs_on s
  pub unlock_irqs : (s : State) → irqs_on (spin_unlock s) ≡ irqs_on s
  pub lock_bh_irqs : (s : State) → irqs_on (spin_lock_bh s) ≡ irqs_on s
  pub unlock_bh_irqs : (s : State) → irqs_on (spin_unlock_bh s) ≡ irqs_on s
  -- `spin_lock_bh` and `spin_unlock_bh` nest.
  pub lock_bh_disabled : (s : State) → bh_disabled (spin_lock_bh s) ≡ suc (bh_disabled s)
  pub unlock_bh_disabled :
      (s : State) (n : ℕ) → bh_disabled s ≡ suc n → bh_disabled (spin_unlock_bh s) ≡ n
  pub init_disabled : (s : State) → bh_disabled (spin_lock_init s) ≡ bh_disabled s
  pub lock_disabled : (s : State) → bh_disabled (spin_lock s) ≡ bh_disabled s
  pub unlock_disabled : (s : State) → bh_disabled (spin_unlock s) ≡ bh_disabled s
  pub irqsave_disabled : (s : State) → bh_disabled (spin_lock_irqsave s).1 ≡ bh_disabled s
  pub irqrestore_disabled :
      (b : Bool) (s : State) → bh_disabled (spin_unlock_irqrestore b s) ≡ bh_disabled s
  pub lock_irq_disabled : (s : State) → bh_disabled (spin_lock_irq s) ≡ bh_disabled s
  pub unlock_irq_disabled : (s : State) → bh_disabled (spin_unlock_irq s) ≡ bh_disabled s
