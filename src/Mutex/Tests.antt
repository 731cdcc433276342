-- ===== src/Mutex/Tests.antt =====
-- mutex1/code.c over a mutex that is one flag.
use lkb.Common.{◌≡◌, refl, pos, Bool, true, false, not, if◌then◌else◌, arith}
use lkb.Kernel.Locks.{MutexApi}
use lkb.Mutex.{start, found_locked, unlocks_held, start_unlocks}

trylock_flag : (m : Bool) → m ≡ true → ◌≡◌ {A = Bool × Bool} (not m, true) (false, m)
trylock_flag m e = ground arith

abbrev flag : MutexApi
flag = record {
  Mutex = Bool;
  mutex_init = false;
  mutex_is_locked = λ m. m;
  mutex_lock = λ m. true;
  mutex_trylock = λ m. (not m, true);
  mutex_lock_interruptible = λ b m. if b then (false, m) else (true, true);
  mutex_lock_killable = λ b m. if b then (false, m) else (true, true);
  mutex_unlock = λ m. false;
  init_free = refl;
  lock_taken = λ m. refl;
  trylock_busy = trylock_flag;
  interrupted = λ m. refl;
  uninterrupted = λ m. refl;
  killed = λ m. refl;
  not_killed = λ m. refl;
  unlock_free = λ m e. refl;
}

start_unlocks_example :
    ((start flag true false).1.1 ≡ pos 0)
    × (found_locked (start flag true false).0 ≡ true)
    × (unlocks_held (start flag true false).0 ≡ false)
    × (true ≡ false → false ≡ false → (start flag true false).1.0 ≡ false)
start_unlocks_example = start_unlocks flag true false
