-- ===== src/Kprobe/Session.antt =====
-- kprobe/code.c and kprobe1/code.c from their load to their unload.
use lkb.Common.{
  List, ◌∙◌, ℕ, ℤ, pos, negsuc, ◌≡◌, ◌≢◌, refl, true, false, ◌==◌, if◌then◌else◌, [], ◌∷◌, none,
  some, arith,
}
use lkb.Kernel.KprobeApi.{KprobeApi}
use lkb.Kprobe.{
  inside_pre, inside_post, address, pre_handler, post_handler, start, start_named, stops, Line,
}

module _ (api : KprobeApi) where
  open api use {Probes, armed, register_kprobe, execute}

  -- What an instruction at an address prints in the state t.
  abbrev pub trace : Probes → ℕ → List Line
  trace t at = execute pre_handler post_handler t at

  trace-armed :
      (t : Probes) (addr at : ℕ)
      → armed t ≡ some addr
      → trace t at ≡ (if at == addr then inside_pre ∷ inside_post ∷ [] else [])
  unfolding pre_handler post_handler
  trace-armed t addr at on = api.execute-armed _ _ t addr at on

  -- What instructions print in the state t, where r is the result of the registration at addr.
  abbrev pub Traces : (r : ℤ) (addr : ℕ) → Probes → Type 0
  Traces r addr t =
      (r ≡ pos 0
        → (at : ℕ) → trace t at ≡ (if at == addr then inside_pre ∷ inside_post ∷ [] else []))
      × (r ≢ pos 0 → (at : ℕ) → trace t at ≡ [])

  register-Traces :
      (addr : ℕ) (s : Probes)
      → armed s ≡ none
      → Traces (register_kprobe addr s).0 addr (register_kprobe addr s).1
  register-Traces addr s off = (
    λ good at. trace-armed _ addr at (api.armed-register addr s good),
    λ bad at. api.execute-none _ _ _ at (api.armed-register_failed addr s bad ∙ off),
  )

  -- Both modules, loaded where no probe is armed, the second with addr as what the lookup of the
  -- name finds. The load of the first returns 0 in any case. That of the second returns -1 exactly
  -- if the lookup finds nothing, and then nothing is printed at any address; else it returns 0. If
  -- the registration succeeds, an instruction prints the lines of both handlers at the probe's
  -- address and nothing elsewhere; if it fails, nothing is printed anywhere. The unload leaves no
  -- probe.
  pub probed :
      (addr : ℕ) (s : Probes)
      → armed s ≡ none
      → let first = start api s in
        let second = start_named api addr s in
        (first.1.1 ≡ pos 0)
        × Traces (register_kprobe address s).0 address first.1.0
        × (armed (stops api first.1.0).1 ≡ none)
        × (addr ≡ 0 → (second.1.1 ≡ negsuc 0) × ((at : ℕ) → trace second.1.0 at ≡ []))
        × (addr ≢ 0 → (second.1.1 ≡ pos 0) × Traces (register_kprobe addr s).0 addr second.1.0)
        × (armed (stops api second.1.0).1 ≡ none)
  unfolding start start_named stops
  probed addr s off = (
    refl,
    register-Traces address s off,
    api.armed-unregister _,
    λ null.
        let test : (addr == 0) ≡ true = ground arith in
        rw test (refl, λ at. api.execute-none _ _ s at off),
    λ found.
        let test : (addr == 0) ≡ false = ground arith in rw test (refl, register-Traces addr s off),
    api.armed-unregister _,
  )
