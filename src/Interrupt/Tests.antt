-- ===== src/Interrupt/Tests.antt =====
-- interrupt01/code.c with lines that are functions, on one of which another device stands.
use lkb.Common.{ℕ, pos, ◌≡◌, ◌≢◌, refl, [], ◌∷◌}
use lkb.Kernel.Examples.{lines, card, handles}
use lkb.Interrupt.{inside_interrupt, request_error, eio, code_init, code_cleanup}
use lkb.Interrupt.Session.{raise, load_unload}

load_unload_example :
    let loaded = code_init lines 500 card in
    let on = loaded.1.0 19 in
    (pos 0 ≡ pos 0
      → (loaded.0 ≡ [])
        × (loaded.1.1 ≡ pos 0)
        × ((raise lines 500 handles on).0 ≡ inside_interrupt ∷ [])
        × ((raise lines 500 handles on).1 ≡ (raise lines 500 handles (300 ∷ [])).1)
        × ((n : ℕ) → code_cleanup lines 500 loaded.1.0 n ≡ 300 ∷ []))
    × (pos 0 ≢ pos 0
        → (loaded.0 ≡ request_error 19 ∷ [])
          × (loaded.1.1 ≡ eio)
          × ((n : ℕ) → loaded.1.0 n ≡ 300 ∷ []))
load_unload_example = load_unload lines 500 handles card refl
