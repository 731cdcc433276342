-- ===== src/Thread/Stop/Change.antt =====
-- What the threads of thread01/code.c and `km_exit` keep, where one thread goes on.
use lkb.Common.{
  ℕ, ◌+◌, ◌≡◌, refl, fun_ext, true, false, List, [], ◌∷◌, has, Distinct, ℕ_discrete, arith,
}
use lkb.Thread.Stop.{
  Status, created, ready, looping, returned, refused, freed, System, set_at, wake_up,
}
use lkb.Thread.Stop.Count.{
  is_ended, is_returned, is_created, has_run, is_late, is_blocked, sum_by, lines_of, sum_by-set,
}

pub record IsValid (ts : List ℕ) (s : System) : Type 0 where
  pub within : (u : ℕ) → has u s.rest ≡ true → has u ts ≡ true
  pub apart : Distinct s.rest
  pub early : is_late s.stage ≡ false → ((u : ℕ) → s.should_stop u ≡ false) × (s.stopped ≡ 0)
  pub ended : (u : ℕ) → is_ended (s.status u) ≡ true → s.should_stop u ≡ true
  pub woken : (u : ℕ) → s.should_stop u ≡ true → is_created (s.status u) ≡ false
  pub head :
      is_blocked s.stage ≡ true
      → (t : ℕ) × (us : List ℕ) × (s.rest ≡ t ∷ us) × (s.should_stop t ≡ true)
  pub reaped :
      is_late s.stage ≡ true
      → (u : ℕ) → has u ts ≡ true
      → has u s.rest ≡ false
      → is_ended (s.status u) ≡ true
  pub counted :
      is_late s.stage ≡ true
      → s.stopped + sum_by is_returned s.status s.rest ≡ sum_by is_returned s.status ts
  pub silent : (u : ℕ) → has_run (s.status u) ≡ false → lines_of u s.log ≡ 0
  pub emptied : s.stage ≡ freed → s.rest ≡ []

set_at-same : (f : ℕ → Status) (t : ℕ) (a : Status) → f t ≡ a → set_at f t a ≡ f
set_at-same f t a e = fun_ext (λ u. ground arith)

module _ (ts : List ℕ) (d : Distinct ts) (s : System) (v : IsValid ts s) (t : ℕ)
    (here : has t ts ≡ true) where
  -- A thread that has not ended goes on.
  pub set-IsValid :
      (b : Status)
      → is_ended (s.status t) ≡ false
      → (is_ended b ≡ true → s.should_stop t ≡ true)
      → is_created b ≡ false
      → (has_run b ≡ false → has_run (s.status t) ≡ false)
      → IsValid ts (record s { status = set_at s.status t b })
  set-IsValid b going stop new run = record {
    within = v.within;
    apart = v.apart;
    early = v.early;
    ended = λ u e. ground (arith, v.ended u);
    woken = λ u e. ground (arith, v.woken u);
    head = v.head;
    reaped = λ late u i out. ground (arith, v.reaped late u);
    counted = λ late.
        let waits : has t s.rest ≡ true = ground (arith, v.reaped late t) in
        let one = sum_by-set is_returned s.status t b s.rest v.apart waits in
        let all = sum_by-set is_returned s.status t b ts d here in omega (arith, v.counted late);
    silent = λ u e. ground (arith, v.silent u);
    emptied = v.emptied;
  }

  pub wake_up-IsValid : IsValid ts (record s { status = set_at s.status t (wake_up (s.status t)) })
  wake_up-IsValid = at (s.status t) refl
    where
      at :
          (a : Status)
          → s.status t ≡ a
          → IsValid ts (record s { status = set_at s.status t (wake_up a) })
      at created e = set-IsValid ready (ground arith) (λ k. cc) refl (λ k. ground arith)
      at ready e = set-IsValid ready (ground arith) (λ k. cc) refl (λ k. ground arith)
      at looping e = set-IsValid looping (ground arith) (λ k. cc) refl (λ k. ground arith)
      at returned e = rw (set_at-same s.status t returned e) v
      at refused e = rw (set_at-same s.status t refused e) v

-- The threads of a shorter rest.
pub tail-within :
    (ts rest us : List ℕ) (t : ℕ)
    → rest ≡ t ∷ us
    → ((u : ℕ) → has u rest ≡ true → has u ts ≡ true)
    → Distinct rest
    → (has t ts ≡ true)
      × ((u : ℕ) → has u us ≡ true → has u ts ≡ true)
      × Distinct us
      × (has t us ≡ false)
tail-within ts rest us t e within apart =
    let whole = rw e at apart in
    (within t (rw e (ground arith)), λ u h. within u (rw e (ground arith)), whole.1, whole.0)

pub next-reaped :
    (ts : List ℕ) (s : System)
    → IsValid ts s
    → (t : ℕ) (us : List ℕ) → s.rest ≡ t ∷ us
    → is_late s.stage ≡ true
    → is_ended (s.status t) ≡ true
    → (u : ℕ) → has u ts ≡ true
    → has u us ≡ false
    → is_ended (s.status u) ≡ true
next-reaped ts s v t us r late gone u i out = elim (ℕ_discrete u t) [
  | yes same ↦ rw same gone
  | no other ↦ v.reaped late u i (rw r (ground arith))
]

pub wake_up-new : (a : Status) → is_created (wake_up a) ≡ false
wake_up-new created = refl
wake_up-new ready = refl
wake_up-new looping = refl
wake_up-new returned = refl
wake_up-new refused = refl
