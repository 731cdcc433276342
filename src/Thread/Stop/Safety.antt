-- ===== src/Thread/Stop/Safety.antt =====
-- What holds while the threads of thread01/code.c and `km_exit` run beside one another.
use lkb.Common.{ℕ, ◌≡◌, refl, ap, true, false, List, has, Distinct, arith}
use lkb.Common.Steps.{Steps}
use lkb.Thread.Stop.{refused, freed, System, fresh, Step}
use lkb.Thread.Stop.Step.{
  wake, load, unload, ask, reap, reap_refused, free, begin, refuse, round, finish,
}
use lkb.Thread.Stop.Count.{is_ended, is_returned, is_late, sum_by, lines_of}
use lkb.Thread.Stop.Invariant.{Steps-IsValid}

-- Where the objects are freed and every thread has ended there is no step.
no-Step :
    {ts : List ℕ} (s t : System)
    → s.stage ≡ freed
    → ((u : ℕ) → has u ts ≡ true → is_ended (s.status u) ≡ true)
    → ¬ Step ts s t
no-Step s _ e gone (wake t us k r) = cc
no-Step s _ e gone (load k r) = cc
no-Step s _ e gone (unload k) = cc
no-Step s _ e gone (ask t us k r) = cc
no-Step s _ e gone (reap t us k r back) = cc
no-Step s _ e gone (reap_refused t us k r back) = cc
no-Step s _ e gone (free k r) = cc
no-Step s _ e gone (begin t i k go) = ground (arith, gone t i)
no-Step s _ e gone (refuse t i k go) = ground (arith, gone t i)
no-Step s _ e gone (round t i k go) = ground (arith, gone t i)
no-Step s _ e gone (finish t i k go) = ground (arith, gone t i)

module _ (ts : List ℕ) (d : Distinct ts) where
  -- For distinct threads, in every state that they and the module can reach: a thread that has
  -- ended was asked to stop; one in whose place the function `mfoo` has never run has printed
  -- nothing; in `km_exit`, every thread that its loop has passed has ended. When the objects are
  -- freed, all threads have ended, the counter of `km_exit` is the number of those whose `mfoo` has
  -- returned, and nothing more happens.
  pub stop_lem :
      (s : System)
      → Steps (Step ts) (fresh ts) s
      → ((u : ℕ) → is_ended (s.status u) ≡ true → s.should_stop u ≡ true)
        × ((u : ℕ) → s.status u ≡ refused → lines_of u s.log ≡ 0)
        × (is_late s.stage ≡ true
            → (u : ℕ) → has u ts ≡ true
            → has u s.rest ≡ false
            → is_ended (s.status u) ≡ true)
        × (s.stage ≡ freed
            → ((u : ℕ) → has u ts ≡ true → is_ended (s.status u) ≡ true)
              × (s.stopped ≡ sum_by is_returned s.status ts)
              × ((t : System) → ¬ Step ts s t))
  stop_lem s r =
      let v = Steps-IsValid ts d s r in
      (
        v.ended,
        λ u e. v.silent u (ground arith),
        v.reaped,
        λ e.
            let gone = λ (u : ℕ) (i : has u ts ≡ true).
              v.reaped (ground arith) u i (rw (v.emptied e) refl) in
            (
              gone,
              let all = v.counted (ground arith) in
                  omega (arith, ap (sum_by is_returned s.status) (v.emptied e)),
              λ t st. no-Step s t e gone st,
            ),
      )
