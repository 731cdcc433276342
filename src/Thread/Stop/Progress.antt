-- ===== src/Thread/Stop/Progress.antt =====
-- `km_exit` of thread01/code.c comes to its end, whatever its threads do.
use lkb.Common.{
  ℕ, suc, ◌+◌, ◌*◌, ◌≤◌, ◌<◌, ◌≡◌, ◌⊎◌, inl, inr, refl, ap, true, List, [], ◌∷◌, has, length,
  Distinct, arith,
}
use lkb.Common.Steps.{Steps, Steps-end}
use lkb.Thread.Stop.{
  Status, created, ready, looping, returned, refused, Stage, waking, loaded, stopping, blocked,
  freed, Line, running, thread_stopped, System, set_at, wake_up, fresh, Step,
}
use lkb.Thread.Stop.Step.{
  wake, load, unload, ask, reap, reap_refused, free, begin, refuse, round, finish,
}
use lkb.Thread.Stop.Count.{sum_by, sum_by-set}
use lkb.Thread.Stop.Change.{IsValid}
use lkb.Thread.Stop.Invariant.{Step-IsValid, Steps-IsValid}

-- The steps that are left to a thread that is asked to stop.
abbrev pub left_of : Status → ℕ
left_of created = 3
left_of ready = 2
left_of looping = 1
left_of returned = 0
left_of refused = 0

-- The steps that are left to the module, with n threads of which the loop has still k to go
-- through.
abbrev pub left : (n : ℕ) → Stage → (k : ℕ) → ℕ
left n waking k = 2 * n + 3 + k
left n loaded k = 2 * n + 2
left n stopping k = 2 * k + 1
left n blocked k = 2 * k
left n freed k = 0

abbrev pub weight : List ℕ → System → ℕ
weight ts s = left (length ts) s.stage (length s.rest) + sum_by left_of s.status ts

-- The rounds of `mfoo` that all threads have made.
abbrev pub rounds : List Line → ℕ
rounds [] = 0
rounds (running t ∷ xs) = suc (rounds xs)
rounds (thread_stopped i ∷ xs) = rounds xs

-- A step that is no round of `mfoo`.
abbrev pub Quiet : List ℕ → System → System → Type 0
Quiet ts s t = Step ts s t × (rounds t.log ≡ rounds s.log)

wake_up-left : (a : Status) → left_of (wake_up a) ≤ left_of a
wake_up-left created = omega arith
wake_up-left ready = omega arith
wake_up-left looping = omega arith
wake_up-left returned = omega arith
wake_up-left refused = omega arith

module _ (ts : List ℕ) (d : Distinct ts) where
  sum-wake_up :
      (f : ℕ → Status) (t : ℕ)
      → has t ts ≡ true
      → sum_by left_of (set_at f t (wake_up (f t))) ts ≤ sum_by left_of f ts
  sum-wake_up f t i =
      omega (arith, sum_by-set left_of f t (wake_up (f t)) ts d i, wake_up-left (f t))

  sum-set :
      (f : ℕ → Status) (t : ℕ) (a b : Status)
      → has t ts ≡ true
      → f t ≡ a
      → left_of b < left_of a
      → sum_by left_of (set_at f t b) ts < sum_by left_of f ts
  sum-set f t a b i e lt = omega (arith, sum_by-set left_of f t b ts d i, ap left_of e)

  front : (s : System) → IsValid ts s → (t : ℕ) (us : List ℕ) → s.rest ≡ t ∷ us → has t ts ≡ true
  front s v t us r = v.within t (rw r (ground arith))

  lower : (s t : System) → IsValid ts s → Quiet ts s t → weight ts t < weight ts s
  lower s _ v (wake t us e r, same) =
      rw (e, r) (omega (arith, sum-wake_up s.status t (front s v t us r)))
  lower s _ v (load e r, same) = rw (e) (omega arith)
  lower s _ v (unload e, same) = rw e (omega arith)
  lower s _ v (ask t us e r, same) =
      rw (e, r) (omega (arith, sum-wake_up s.status t (front s v t us r)))
  lower s _ v (reap t us e r back, same) = rw (e, r) (omega arith)
  lower s _ v (reap_refused t us e r back, same) = rw (e, r) (omega arith)
  lower s _ v (free e r, same) = rw (e, r) (omega arith)
  lower s _ v (begin t i e go, same) =
      omega (arith, sum-set s.status t ready looping i e (omega arith))
  lower s _ v (refuse t i e go, same) =
      omega (arith, sum-set s.status t ready refused i e (omega arith))
  lower s _ v (round t i e go, same) = absurd (omega arith)
  lower s _ v (finish t i e go, same) =
      omega (arith, sum-set s.status t looping returned i e (omega arith))

  -- `kthread_stop` of t goes on.
  go_blocked :
      (s : System) (t : ℕ) (us : List ℕ)
      → IsValid ts s
      → s.stage ≡ blocked
      → s.rest ≡ t ∷ us
      → s.should_stop t ≡ true
      → (u : System) × Quiet ts s u
  go_blocked s t us v e r stop = at (s.status t) refl
    where
      at : (a : Status) → s.status t ≡ a → (u : System) × Quiet ts s u
      at created k = ground (arith, v.woken t stop)
      at ready k = (_, (refuse t (front s v t us r) k stop, refl))
      at looping k = (_, (finish t (front s v t us r) k stop, refl))
      at returned k = (_, (reap t us e r k, refl))
      at refused k = (_, (reap_refused t us e r k, refl))

  can_go : (s : System) → IsValid ts s → (s.stage ≡ freed) ⊎ ((u : System) × Quiet ts s u)
  can_go s v = at s.stage s.rest refl refl
    where
      at :
          (g : Stage) (us : List ℕ)
          → s.stage ≡ g
          → s.rest ≡ us
          → (s.stage ≡ freed) ⊎ ((u : System) × Quiet ts s u)
      at waking [] e r = inr (_, (load e r, refl))
      at waking (t ∷ us) e r = inr (_, (wake t us e r, refl))
      at loaded us e r = inr (_, (unload e, refl))
      at stopping [] e r = inr (_, (free e r, refl))
      at stopping (t ∷ us) e r = inr (_, (ask t us e r, refl))
      at blocked us e r =
          let (t, vs, k, stop) = v.head (ground arith) in inr (go_blocked s t vs v e k stop)
      at freed us e r = inl e

  -- For distinct threads, from every state that they and the module can reach: each step that is no
  -- round of a thread's loop lowers the weight; there is such a step unless the objects are freed;
  -- and a run of such steps leads there. So however long the threads have run, `km_exit` ends.
  pub stop_ends :
      (s : System)
      → Steps (Step ts) (fresh ts) s
      → ((t : System) → Quiet ts s t → weight ts t < weight ts s)
        × ((s.stage ≡ freed) ⊎ ((t : System) × Quiet ts s t))
        × ((t : System) × Steps (Quiet ts) s t × (t.stage ≡ freed))
  stop_ends s r =
      let v = Steps-IsValid ts d s r in
      (
        λ t st. lower s t v st,
        can_go s v,
        Steps-end (Quiet ts) (IsValid ts) (λ u. u.stage ≡ freed) (weight ts)
            (λ a b h st. Step-IsValid ts d a b h st.0) lower can_go (suc (weight ts s)) s
            (omega arith) v,
      )
