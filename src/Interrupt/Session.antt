-- ===== src/Interrupt/Session.antt =====
-- interrupt01/code.c from its load to its unload, with the interrupts between.
use lkb.Common.{
  ℕ, pos, is_zero, is_zero_iff, ◌≡◌, ◌≢◌, refl, ◌∙◌, ap, Bool, true, false, ◌||◌, ◌==◌, List, [],
  ◌∷◌, ◌++◌, has, erase, erase-last, ℕ_discrete, arith,
}
use lkb.Common.Events.{Io}
use lkb.Kernel.IrqApi.{IrqApi}
use lkb.Interrupt.{
  inside_interrupt, request_error, sirq, eio, my_interrupt, handler, code_init, code_cleanup, Line,
}

module _ (api : IrqApi) where
  open api use {Lines, on_line, request_irq, free_irq, handle_irq}

  -- An interrupt on a line with these devices.
  abbrev pub raise : (my : ℕ) (others : ℕ → Bool) → List ℕ → Io Line Bool
  raise my others ds = handle_irq (handler my others) ds

  -- A line on which the module is last calls it once, and its answer changes nothing.
  raise-last :
      (my : ℕ) (others : ℕ → Bool) (ds : List ℕ)
      → has my ds ≡ false
      → ((raise my others (ds ++ my ∷ [])).0 ≡ inside_interrupt ∷ [])
        × ((raise my others (ds ++ my ∷ [])).1 ≡ (raise my others ds).1)
        × ((raise my others ds).0 ≡ [])
  unfolding my_interrupt
  raise-last my others [] out =
      let test : (my == my) ≡ true = ground arith in
      let none = api.handle_irq-nil (handler my others) in
      let one = api.handle_irq-cons (handler my others) my [] in
      rw (one, none, test) (refl, refl, refl)
  raise-last my others (d ∷ ds) out =
      let (once, answer, silent) = raise-last my others ds (ground arith) in
      let test : (d == my) ≡ false = ground arith in
      let here = api.handle_irq-cons (handler my others) d ds in
      let there = api.handle_irq-cons (handler my others) d (ds ++ my ∷ []) in
      rw (here, there, test) (once, ap (λ b. others d || b) answer, silent)

  free-request :
      (my : ℕ) (ls : Lines)
      → has my (on_line ls sirq) ≡ false
      → (request_irq sirq my ls).0 ≡ pos 0
      → (n : ℕ) → on_line (free_irq sirq my (request_irq sirq my ls).1) n ≡ on_line ls n
  free-request my ls out good n = elim (ℕ_discrete n sirq) [
    | yes same ↦ rw same (
        api.on_line-free sirq my (request_irq sirq my ls).1
        ∙ ap (erase my) (api.on_line-request sirq my ls good)
        ∙ erase-last my (on_line ls sirq) out)
    | no other ↦
        api.on_line-free_other sirq my (request_irq sirq my ls).1 n other
        ∙ api.on_line-request_other sirq my ls n other
  ]

  -- Where the device is not on the line before: if the request succeeds, the load returns 0, every
  -- interrupt on the line is printed once and handled exactly if it was before, and after the
  -- unload all lines are what they were; if the request fails, the load prints an error, returns
  -- -EIO and leaves the lines as they were.
  pub load_unload :
      (my : ℕ) (others : ℕ → Bool) (ls : Lines)
      → has my (on_line ls sirq) ≡ false
      → let loaded = code_init api my ls in
        let on = on_line loaded.1.0 sirq in
        ((request_irq sirq my ls).0 ≡ pos 0
          → (loaded.0 ≡ [])
            × (loaded.1.1 ≡ pos 0)
            × ((raise my others on).0 ≡ inside_interrupt ∷ [])
            × ((raise my others on).1 ≡ (raise my others (on_line ls sirq)).1)
            × ((n : ℕ) → on_line (code_cleanup api my loaded.1.0) n ≡ on_line ls n))
        × ((request_irq sirq my ls).0 ≢ pos 0
            → (loaded.0 ≡ request_error sirq ∷ [])
              × (loaded.1.1 ≡ eio)
              × ((n : ℕ) → on_line loaded.1.0 n ≡ on_line ls n))
  unfolding code_init code_cleanup
  load_unload my others ls out =
      let r = request_irq sirq my ls in
      (
        λ good.
            let test : is_zero r.0 ≡ true = (is_zero_iff r.0).0.1 good in
            let on = api.on_line-request sirq my ls good in
            let (once, same, none) = raise-last my others (on_line ls sirq) out in
            rw (test, on) (refl, refl, once, same, free-request my ls out good),
        λ bad.
            let test : is_zero r.0 ≡ false = (is_zero_iff r.0).1.1 bad in
            rw test (refl, refl, λ n. api.on_line-request_failed sirq my ls n bad),
      )
