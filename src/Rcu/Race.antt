-- ===== src/Rcu/Race.antt =====
-- The loop of rcu/code.c that deletes, an access at a time, with the callbacks of `call_rcu`
-- between: it holds neither `rcu_read_lock` nor, after the deletion, the lock, so a grace period
-- may end there.
use lkb.Common.{
  ℕ, zero, suc, ◌≡◌, ◌≢◌, refl, ◌∙◌, ap, List, [], ◌∷◌, ◌++◌, Bool, true, false, Bool-cases, inl,
  inr, ==_iff, ◌==◌, some, has, erase, has-erase_self, Distinct, arith,
}
use mathlib.Core.Path.{subst}
use lkb.Common.Steps.{Steps, here, next, Steps-trans, Steps-map}
use lkb.Kernel.ContainerOf.{ContainerOf}
use lkb.Kernel.RcuList.{RcuList, Chain}
use lkb.Rcu.{State, for_each, delete, grace_period}
use lkb.Rcu.Walk.{Idle}
use lkb.Rcu.Update.{Lacks, held_by, delete-Idle}
use lkb.Rcu.Start.{grace_period_one}

module _ (c : ContainerOf) (l : RcuList) (h : ContainerOf) where
  open c use {member, container_of, container_of-member}
  open l use {head, first, entries}

  -- The entry that the loop is at, whether it has run its body there, the rest of the module.
  pub record Race : Type 0 where
    pub at : ℕ
    pub ran : Bool
    pub state : State c l

  abbrev pub arrived : ℕ → State c l → Race
  arrived n s = record { at = n; ran = false; state = s }

  -- The steps of the loop.
  pub data Round (r : Race) : Race → Type 0 where
    body :
        r.at ≢ head
        → r.ran ≡ false
        → Round r (record r { ran = true; state = delete c l (container_of r.at) r.state })
    -- The link of the entry is read.
    advance : r.ran ≡ true → Round r (arrived (l.next r.state.list r.at) r.state)

  -- These, and the end of a grace period, which frees what is queued.
  pub data Step (r : Race) : Race → Type 0 where
    loop : {q : Race} → Round r q → Step r q
    callbacks : r.state.queued ≢ [] → Step r (record r { state = grace_period c l h r.state })

  round_steps :
      (n : ℕ) (s : State c l)
      → n ≢ head
      → let t = delete c l (container_of n) s in
        Steps Round (arrived n s) (arrived (l.next t.list n) t)
  round_steps n s inside = next (next here (body inside refl)) (advance refl)

  -- Without callbacks the steps are those of the loop.
  for_each-Steps :
      (fuel n : ℕ) (s t : State c l)
      → for_each c l (delete c l) fuel n s ≡ some t
      → Steps Round (arrived n s) (arrived head t)
  unfolding for_each
  for_each-Steps zero n s t e = cc
  for_each-Steps (suc fuel) n s t e = elim (Bool-cases (n == head)) [
    | inl last ↦
        let same : s ≡ t = ground arith in
        subst (λ u. Steps Round (arrived n s) (arrived head u)) same
          (subst (λ m. Steps Round (arrived n s) (arrived m s)) ((==_iff n head).0 last) here)
    | inr more ↦
        let u = delete c l (container_of n) s in
        Steps-trans Round (round_steps n s (ground arith))
          (for_each-Steps fuel (l.next u.list n) u t (rw more at e))
  ]

  walk :
      (xs ys : List ℕ) (n : ℕ) (s : State c l)
      → Chain (l.next s.list) head n (xs ++ ys)
      → Idle c l (delete c l) s xs
      → (m : ℕ) × Chain (l.next s.list) head m ys × Steps Round (arrived n s) (arrived m s)
  walk [] ys n s chain idle = (n, chain, here)
  walk (x ∷ xs) ys n s (at, inside, chain) (same, idle) =
      let (m, rest, r) = walk xs ys (l.next s.list x) s chain idle in
      let one = round_steps x s inside in
      let back = subst (λ t. Steps Round (arrived x s) (arrived (l.next t.list x) t)) same one in
      (m, rest, rw at (Steps-trans Round back r))

  -- Where the object p, which is not NULL and is allocated, is the first of the list that holds 20,
  -- behind the entries xs, nothing is queued and the allocated objects are distinct: whatever the loop
  -- leaves is what its steps without callbacks leave; but a run of its steps in which the callback of p
  -- comes before the loop goes on is about to read the link of p, which is then freed.
  pub race_lem :
      (p : ℕ) (xs ys : List ℕ) (s : State c l)
      → entries s.list ≡ xs ++ member p ∷ ys
      → Lacks (held_by c l s) 20 xs
      → s.data_of p ≡ 20
      → p ≢ 0
      → s.queued ≡ []
      → Distinct s.live
      → has p s.live ≡ true
      → ((fuel : ℕ) (t : State c l)
          → for_each c l (delete c l) fuel (first s.list) s ≡ some t
          → Steps Round (arrived (first s.list) s) (arrived head t))
        × ((r : Race) × Steps Step (arrived (first s.list) s) r
            × (r.at ≡ member p)
            × (r.ran ≡ true)
            × (r.state.live ≡ erase p s.live)
            × (has p r.state.live ≡ false))
  unfolding delete
  race_lem p xs ys s listed before it some_object unqueued apart allocated =
      let all = subst (Chain (l.next s.list) head (first s.list)) listed (l.chained s.list) in
      let (m, (at, inside, rest), walked) =
        walk xs (member p ∷ ys) (first s.list) s all (delete-Idle c l s xs before) in
      let t = delete c l (container_of m) s in
      let object : container_of m ≡ p = ap container_of at ∙ container_of-member p in
      let queue : t.queued ≡ p ∷ [] = rw (object, it, unqueued) refl in
      let kept : t.live ≡ s.live = rw (object, it) refl in
      let over = grace_period_one c l h p t some_object queue in
      let left : (grace_period c l h t).live ≡ erase p s.live =
        ap (λ u. u.live) over ∙ ap (erase p) kept in
      (
        λ fuel u e. for_each-Steps fuel (first s.list) s u e,
        (
          record { at = m; ran = true; state = grace_period c l h t },
          next
              (next
                (Steps-map Round Step (λ r q st. loop st) (arrived (first s.list) s) (arrived m s)
                  walked)
                (loop (body (rw at inside) refl)))
              (callbacks (λ e. cc)),
          at,
          refl,
          left,
          rw left (has-erase_self p s.live apart),
        ),
      )
