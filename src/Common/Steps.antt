-- ===== src/Common/Steps.antt =====
-- Runs of a step relation: invariants, and runs that end.
use Prim.Native.Nat.{ℕ, zero, suc, ◌<◌}
use mathlib.Core.Logic.{◌⊎◌, inl, inr}
use native.Mathlib.Omega.{arith}

module _ {A : Type 0} (R : A → A → Type 0) where
  -- A run from s.
  pub data Steps (s : A) : A → Type 0 where
    here : Steps s s
    next : {t u : A} → Steps s t → R t u → Steps s u

  pub Steps-trans : {s t u : A} → Steps s t → Steps t u → Steps s u
  Steps-trans r here = r
  Steps-trans r (next r' st) = next (Steps-trans r r') st

  -- What every step keeps holds at the end of a run.
  pub Steps-inv :
      (P : A → Type 0) → ((s t : A) → P s → R s t → P t) → (s t : A) → P s → Steps s t → P t
  Steps-inv P keep s t h here = h
  Steps-inv P keep s t h (next {t = m} r st) = keep m t (Steps-inv P keep s m h r) st

  go_on :
      (E : A → Type 0) (s : A)
      → E s ⊎ ((t : A) × R s t)
      → ((t : A) → R s t → (u : A) × Steps t u × E u)
      → (u : A) × Steps s u × E u
  go_on E s (inl e) rest = (s, here, e)
  go_on E s (inr (t, st)) rest = let (u, r, e) = rest t st in (u, Steps-trans (next here st) r, e)

  -- Where every step lowers a weight, and a state that is not at its end has a step, a run leads to
  -- an end.
  pub Steps-end :
      (P E : A → Type 0) (weight : A → ℕ)
      → ((s t : A) → P s → R s t → P t)
      → ((s t : A) → P s → R s t → weight t < weight s)
      → ((s : A) → P s → E s ⊎ ((t : A) × R s t))
      → (n : ℕ) (s : A) → weight s < n
      → P s
      → (t : A) × Steps s t × E t
  Steps-end P E weight keep lower go zero s lt h = elim lt [ ]
  Steps-end P E weight keep lower go (suc n) s lt h = go_on E s (go s h) (λ t st.
      Steps-end P E weight keep lower go n t (omega (arith, lower s t h st)) (keep s t h st))

-- A run is one of any relation that has its steps.
pub Steps-map :
    {A : Type 0} (R S : A → A → Type 0)
    → ((s t : A) → R s t → S s t)
    → (s t : A) → Steps R s t
    → Steps S s t
Steps-map R S f s t here = here
Steps-map R S f s t (next {t = m} r st) = next (Steps-map R S f s m r) (f m t st)
