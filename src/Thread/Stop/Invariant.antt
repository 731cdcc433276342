-- ===== src/Thread/Stop/Invariant.antt =====
-- What every step of the threads of thread01/code.c and of `km_exit` keeps.
use lkb.Common.{ℕ, ◌+◌, ◌≡◌, refl, ◌∙◌, ap, true, List, ◌∷◌, Distinct, arith}
use lkb.Common.Steps.{Steps, Steps-inv}
use lkb.Thread.Stop.{looping, returned, refused, stopping, blocked, Line, System, fresh, Step}
use lkb.Thread.Stop.Step.{
  wake, load, unload, ask, reap, reap_refused, free, begin, refuse, round, finish,
}
use lkb.Thread.Stop.Count.{is_ended, is_returned, sum_by, lines_of}
use lkb.Thread.Stop.Change.{
  IsValid, set-IsValid, wake_up-IsValid, tail-within, next-reaped, wake_up-new,
}

module _ (ts : List ℕ) (d : Distinct ts) where
  -- `kthread_stop` returns for the first thread of the rest.
  reap-IsValid :
      (s : System)
      → IsValid ts s
      → (t : ℕ) (us : List ℕ) → s.stage ≡ blocked
      → s.rest ≡ t ∷ us
      → is_ended (s.status t) ≡ true
      → {n : ℕ} {log : List Line} → n ≡ s.stopped + is_returned (s.status t)
      → ((u : ℕ) → lines_of u log ≡ lines_of u s.log)
      → IsValid ts (record s { stage = stopping; rest = us; stopped = n; log = log })
  reap-IsValid s v t us e r gone more lines =
      let (inside, within, apart, out) = tail-within ts s.rest us t r v.within v.apart in
      record {
        within = within;
        apart = apart;
        early = λ k. cc;
        ended = v.ended;
        woken = v.woken;
        head = λ k. cc;
        reaped = λ k. next-reaped ts s v t us r (ground arith) gone;
        counted = λ k.
            let all = v.counted (ground arith) in
            let split = ap (sum_by is_returned s.status) r in omega arith;
        silent = λ u k. lines u ∙ v.silent u k;
        emptied = λ k. cc;
      }

  pub Step-IsValid : (s u : System) → IsValid ts s → Step ts s u → IsValid ts u
  Step-IsValid s _ v (wake t us e r) =
      let (inside, within, apart, out) = tail-within ts s.rest us t r v.within v.apart in
      let w = wake_up-IsValid ts d s v t inside in
      record {
        within = within;
        apart = apart;
        early = w.early;
        ended = w.ended;
        woken = w.woken;
        head = λ k. ground arith;
        reaped = λ k. ground arith;
        counted = λ k. ground arith;
        silent = w.silent;
        emptied = λ k. ground arith;
      }
  Step-IsValid s _ v (load e r) = record {
    within = v.within;
    apart = v.apart;
    early = λ k. v.early (ground arith);
    ended = v.ended;
    woken = v.woken;
    head = λ k. cc;
    reaped = λ k. cc;
    counted = λ k. cc;
    silent = v.silent;
    emptied = λ k. cc;
  }
  Step-IsValid s _ v (unload e) =
      let (unasked, none) = v.early (ground arith) in
      record {
        within = λ u h. h;
        apart = d;
        early = λ k. cc;
        ended = v.ended;
        woken = v.woken;
        head = λ k. cc;
        reaped = λ k u i out. cc;
        counted = λ k. omega arith;
        silent = v.silent;
        emptied = λ k. cc;
      }
  Step-IsValid s _ v (ask t us e r) =
      let (inside, within, apart, out) = tail-within ts s.rest us t r v.within v.apart in
      let w = wake_up-IsValid ts d s v t inside in
      record {
        within = v.within;
        apart = v.apart;
        early = λ k. cc;
        ended = λ u k. ground (arith, w.ended u);
        woken = λ u k. ground (arith, wake_up-new (s.status t), v.woken u);
        head = λ k. (t, us, r, ground arith);
        reaped = λ k. w.reaped (ground arith);
        counted = λ k. w.counted (ground arith);
        silent = w.silent;
        emptied = λ k. cc;
      }
  Step-IsValid s _ v (reap t us e r back) =
      reap-IsValid s v t us e r (ground arith) (omega (arith, ap is_returned back)) (λ u. refl)
  Step-IsValid s _ v (reap_refused t us e r back) =
      reap-IsValid s v t us e r (ground arith) (omega (arith, ap is_returned back)) (λ u. refl)
  Step-IsValid s _ v (free e r) = record {
    within = v.within;
    apart = v.apart;
    early = λ k. cc;
    ended = v.ended;
    woken = v.woken;
    head = λ k. cc;
    reaped = λ k. v.reaped (ground arith);
    counted = λ k. v.counted (ground arith);
    silent = v.silent;
    emptied = λ k. r;
  }
  Step-IsValid s _ v (begin t here e go) =
      set-IsValid ts d s v t here looping (ground arith) (λ k. cc) refl (λ k. cc)
  Step-IsValid s _ v (refuse t here e stop) =
      set-IsValid ts d s v t here refused (ground arith) (λ k. stop) refl (λ k. ground arith)
  Step-IsValid s _ v (round t here e go) = record {
    within = v.within;
    apart = v.apart;
    early = v.early;
    ended = v.ended;
    woken = v.woken;
    head = v.head;
    reaped = v.reaped;
    counted = v.counted;
    silent = λ u k. ground (arith, v.silent u);
    emptied = v.emptied;
  }
  Step-IsValid s _ v (finish t here e stop) =
      set-IsValid ts d s v t here returned (ground arith) (λ k. stop) refl (λ k. cc)

  pub fresh-IsValid : IsValid ts (fresh ts)
  fresh-IsValid = record {
    within = λ u h. h;
    apart = d;
    early = λ k. (λ u. refl, refl);
    ended = λ u k. cc;
    woken = λ u k. cc;
    head = λ k. cc;
    reaped = λ k. cc;
    counted = λ k. cc;
    silent = λ u k. refl;
    emptied = λ k. cc;
  }

  pub Steps-IsValid : (s : System) → Steps (Step ts) (fresh ts) s → IsValid ts s
  Steps-IsValid s r = Steps-inv (Step ts) (IsValid ts) Step-IsValid (fresh ts) s fresh-IsValid r
