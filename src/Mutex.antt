-- ===== src/Mutex.antt =====
-- mutex1/code.c: `start` over the mutex interface. Whether a signal interrupts each of the two
-- interruptible locks is an argument.
mod Tests
use lkb.Common.{
  ◌≡◌, ◌↔◌, refl, ℤ, pos, Bool, true, false, not, ◌&&◌, ◌||◌, if◌then◌else◌, List, [], ◌∷◌, arith,
}
use lkb.Common.Events.{Io, ◌>>=◌, ◌>>◌, emit, return}
use lkb.Kernel.Locks.{MutexApi}

-- What is printed, and each unlock with whether the mutex was locked.
pub data Event : Type 0 where
  is_locked : Event
  is_not_locked : Event
  trylock_taken : Event
  trylock_busy : Event
  interruptible_taken : Event
  interruptible_interrupted : Event
  killable_taken : Event
  killable_interrupted : Event
  unlocked : Bool → Event

module _ (api : MutexApi) where
  open api use {Mutex, mutex_init, mutex_is_locked, mutex_lock, mutex_trylock, mutex_unlock}

  unlock : Mutex → Io Event Mutex
  unlock m = emit (unlocked (mutex_is_locked m)) >> return (mutex_unlock m)

  -- `start`: the mutex at its end, and its result.
  pub start : (signal kill : Bool) → Io Event (Mutex × ℤ)
  unfolding unlock
  start signal kill = do
    let m = mutex_lock mutex_init
    emit (if mutex_is_locked m then is_locked else is_not_locked)
    let tried = mutex_trylock m
    emit (if tried.0 then trylock_taken else trylock_busy)
    m ← unlock tried.1
    let first = api.mutex_lock_interruptible signal m
    emit (if first.0 then interruptible_taken else interruptible_interrupted)
    m ← unlock first.1
    let second = api.mutex_lock_killable kill m
    emit (if second.0 then killable_taken else killable_interrupted)
    m ← unlock second.1
    return (m, pos 0)

-- Whether the events begin with a lock that is found taken, a `mutex_trylock` that fails, and an
-- unlock of the locked mutex.
pub found_locked : List Event → Bool
found_locked (is_locked ∷ trylock_busy ∷ unlocked b ∷ es) = b
found_locked es = false

-- Whether every unlock found the mutex locked.
pub unlocks_held : List Event → Bool
unlocks_held [] = true
unlocks_held (unlocked b ∷ es) = b && unlocks_held es
unlocks_held (e ∷ es) = unlocks_held es

module _ (api : MutexApi) where
  open api use {mutex_is_locked, mutex_init, mutex_lock, mutex_unlock}

  start-0 : api.mutex_trylock (mutex_lock mutex_init) ≡ (false, mutex_lock mutex_init)
  start-0 = api.trylock_busy (mutex_lock mutex_init) (api.lock_taken mutex_init)

  -- `start` finds its mutex locked after it takes it and cannot take it again, then unlocks it, and
  -- returns 0. Its unlocks all find the mutex locked exactly if neither of the interruptible locks
  -- is interrupted; then it leaves the mutex free.
  pub start_unlocks :
      (signal kill : Bool)
      → ((start api signal kill).1.1 ≡ pos 0)
        × (found_locked (start api signal kill).0 ≡ true)
        × (unlocks_held (start api signal kill).0 ≡ not (signal || kill))
        × (signal ≡ false → kill ≡ false → mutex_is_locked (start api signal kill).1.0 ≡ false)
  unfolding start unlocks_held found_locked
  start_unlocks false false =
      rw (start-0, api.uninterrupted, api.not_killed, api.lock_taken mutex_init)
        (refl, refl, simp api.lock_taken, λ a b. api.unlock_free _ (api.lock_taken _))
  start_unlocks false true =
      let second = mutex_lock (mutex_unlock (mutex_lock mutex_init)) in
      let free = api.unlock_free second (api.lock_taken _) in
      rw (start-0, api.uninterrupted, api.killed, api.lock_taken mutex_init)
        (refl, refl, rw (api.lock_taken, free), λ a b. cc)
  start_unlocks true kill =
      let free = api.unlock_free (mutex_lock mutex_init) (api.lock_taken mutex_init) in
      rw (start-0, api.interrupted, api.lock_taken mutex_init) (refl, refl, rw free, λ a b. cc)
