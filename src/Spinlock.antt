-- ===== src/Spinlock.antt =====
-- spinlock/code.c: `start` over the interface of a spin lock.
mod Tests
use lkb.Common.{◌≡◌, refl, ◌∙◌, ap, suc, ℤ, pos, Bool, true, false, if◌then◌else◌, List, [], ◌∷◌}
use lkb.Common.Events.{Io, ◌>>=◌, ◌>>◌, emit, return}
use lkb.Kernel.Locks.{SpinApi}

-- What is printed.
pub data Line : Type 0 where
  lock_is_free : Line
  lock_is_taken : Line
  already_taken : Line
  taken_now : Line

module _ (api : SpinApi) where
  open api use {State, spin_lock_init, spin_lock, spin_is_locked, spin_trylock, spin_unlock}

  -- `start` up to `spin_unlock_irqrestore`.
  pub until_restored : State → Io Line State
  until_restored s = do
    let s1 = spin_lock (spin_lock_init s)
    emit (if spin_is_locked s1 then lock_is_taken else lock_is_free)
    let tried = spin_trylock s1
    emit (if tried.0 then taken_now else already_taken)
    let s2 = spin_unlock tried.1
    let saved = api.spin_lock_irqsave s2
    return (api.spin_unlock_irqrestore saved.0 saved.1)

  -- `start`: the state at its end, and its result.
  pub start : State → Io Line (State × ℤ)
  start s = do
    s3 ← until_restored s
    let s4 = api.spin_unlock_irq (api.spin_lock_irq s3)
    let s5 = api.spin_unlock_bh (api.spin_lock_bh s4)
    return (s5, pos 0)

  tried_twice :
      (s : State)
      → spin_trylock (spin_lock (spin_lock_init s)) ≡ (false, spin_lock (spin_lock_init s))
  tried_twice s =
      api.trylock_busy (spin_lock (spin_lock_init s)) (api.lock_taken (spin_lock_init s))

  restored_disabled : (s : State) → api.bh_disabled (until_restored s).1 ≡ api.bh_disabled s
  unfolding until_restored
  restored_disabled s =
      api.irqrestore_disabled _ _
      ∙ api.irqsave_disabled _
      ∙ api.unlock_disabled _
      ∙ ap (λ p. api.bh_disabled p.1) (tried_twice s)
      ∙ api.lock_disabled _
      ∙ api.init_disabled s

  -- `start` finds the lock taken after it takes it, cannot take it again, and returns 0 with the
  -- lock free. After `spin_unlock_irqrestore` the interrupts are as they were at its call; at its end
  -- they are on, also where they were off at its call, and the bottom halves are disabled as often as
  -- at its call.
  pub start_locks :
      (s : State)
      → ((start s).0 ≡ lock_is_taken ∷ already_taken ∷ [])
        × ((start s).1.1 ≡ pos 0)
        × (spin_is_locked (start s).1.0 ≡ false)
        × (api.irqs_on (until_restored s).1 ≡ api.irqs_on s)
        × (api.irqs_on (start s).1.0 ≡ true)
        × (api.bh_disabled (start s).1.0 ≡ api.bh_disabled s)
  unfolding start until_restored
  start_locks s = (
    rw (tried_twice s, api.lock_taken (spin_lock_init s)),
    refl,
    api.unlock_bh_free _ (api.bh_taken _),
    api.irqrestore _ _
        ∙ api.irqsave_flags _
        ∙ api.unlock_irqs _
        ∙ ap (λ p. api.irqs_on p.1) (tried_twice s)
        ∙ api.lock_irqs _
        ∙ api.init_irqs s,
    api.unlock_bh_irqs _ ∙ api.lock_bh_irqs _ ∙ api.unlock_irq_on _,
    api.unlock_bh_disabled _ _ (
        api.lock_bh_disabled _
        ∙ ap suc (api.unlock_irq_disabled _ ∙ api.lock_irq_disabled _ ∙ restored_disabled s)),
  )
