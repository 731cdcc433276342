-- ===== src/Rcu/Walk.antt =====
-- The loops of rcu/code.c on entries that they leave in place.
use lkb.Common.{
  ℕ, zero, suc, ◌+◌, ◌-◌, ◌≡◌, ◌≢◌, ◌<◌, ◌≤◌, refl, ◌∙◌, ap, sym, List, [], ◌∷◌, ◌++◌, map, true,
  false, ◌==◌, some, length, arith,
}
use mathlib.Core.Path.{subst}
use mathlib.Core.List.{append-nil, append_assoc}
use lkb.Kernel.ContainerOf.{ContainerOf}
use lkb.Kernel.RcuList.{RcuList, Chain}
use lkb.Rcu.{value, State, for_each, show, read_all}

module _ (c : ContainerOf) (l : RcuList) where
  open c use {member, container_of}
  open l use {Store, head, first, next, entries}

  -- The body changes nothing at these entries.
  abbrev pub Idle : (ℕ → State c l → State c l) → State c l → List ℕ → Type 0
  Idle body s [] = Unit {0}
  Idle body s (x ∷ xs) = (body (container_of x) s ≡ s) × Idle body s xs

  -- It goes past them.
  pub for_each-past :
      (body : ℕ → State c l → State c l) (xs ys : List ℕ) (n fuel : ℕ) (s : State c l)
      → Chain (next s.list) head n (xs ++ ys)
      → Idle body s xs
      → length xs ≤ fuel
      → (m : ℕ) × Chain (next s.list) head m ys
        × (for_each c l body fuel n s ≡ for_each c l body (fuel - length xs) m s)
  unfolding for_each
  for_each-past body [] ys n fuel s chain idle le =
      (n, chain, ap (λ k. for_each c l body k n s) (omega arith))
  for_each-past body (x ∷ xs) ys n zero s chain idle le = elim le [ ]
  for_each-past body (x ∷ xs) ys n (suc fuel) s (here, inside, chain) (same, idle) le =
      let (m, rest, e) = for_each-past body xs ys (next s.list x) fuel s chain idle (omega arith) in
      let test : (x == head) ≡ false = ground arith in
      (m, rest, rw (here, test, same) (e ∙ ap (λ k. for_each c l body k m s) (omega arith)))

  pub for_each-end :
      (body : ℕ → State c l → State c l) (fuel n : ℕ) (s : State c l)
      → n ≡ head
      → for_each c l body (suc fuel) n s ≡ some s
  unfolding for_each
  for_each-end body fuel n s e = let test : (n == head) ≡ true = ground arith in rw test refl

  show_each :
      (k n fuel : ℕ) (xs : List ℕ) (s : State c l)
      → length xs < fuel
      → Chain (next s.list) head n xs
      → for_each c l (show c l k) fuel n s
        ≡ some (record s { log = s.log ++ map (λ x. value k (s.data_of (container_of x))) xs })
  unfolding for_each show
  show_each k n zero xs s lt chain = elim lt [ ]
  show_each k n (suc fuel) [] s lt chain =
      let test : (n == head) ≡ true = ground arith in
      rw test (ap (λ xs. some (record s { log = xs })) (sym (append-nil s.log)))
  show_each k n (suc fuel) (x ∷ xs) s lt (here, inside, chain) =
      let test : (x == head) ≡ false = ground arith in
      let t : State c l = record s { log = s.log ++ value k (s.data_of (container_of x)) ∷ [] } in
      rw (here, test)
        (show_each k (next s.list x) fuel xs t (omega arith) chain
          ∙ ap (λ ys. some (record s { log = ys })) (append_assoc s.log _ _))

  -- With more rounds than entries, a reader's loop ends, prints the values of the entries in their
  -- order, and changes nothing else.
  pub read_all_lem :
      (k fuel : ℕ) (s : State c l)
      → length (entries s.list) < fuel
      → read_all c l k fuel s
        ≡ some (record s {
          log = s.log ++ map (λ x. value k (s.data_of (container_of x))) (entries s.list);
        })
  unfolding read_all
  read_all_lem k fuel s lt =
      show_each k (first s.list) fuel (entries s.list) s lt (l.chained s.list)

  Chain-start :
      (f g : ℕ → ℕ) (a b : ℕ) (ys : List ℕ)
      → Chain f head a ys
      → Chain g head b ys
      → Chain g head a ys
  Chain-start f g a b [] h k = h
  Chain-start f g a b (y ∷ ys) h k = (h.0, k.1, k.2)

  pub Chain-drop :
      (f : ℕ → ℕ) (n m : ℕ) (xs ys : List ℕ) → Chain f head n (xs ++ m ∷ ys) → Chain f head (f m) ys
  Chain-drop f n m [] ys h = h.2
  Chain-drop f n m (x ∷ xs) ys h = Chain-drop f (f x) m xs ys h.2

  length-middle :
      (xs : List ℕ) (n : ℕ) (ys : List ℕ) → length (xs ++ n ∷ ys) ≡ length xs + suc (length ys)
  length-middle [] n ys = omega arith
  length-middle (x ∷ xs) n ys = omega (arith, length-middle xs n ys)

  step_on :
      (body : ℕ → State c l → State c l) (fuel m n : ℕ) (s t : State c l)
      → m ≡ n
      → n ≢ head
      → body (container_of n) s ≡ t
      → next t.list n ≡ next s.list n
      → for_each c l body (suc fuel) m s ≡ for_each c l body fuel (next s.list n) t
  unfolding for_each
  step_on body fuel m n s t here inside does goes =
      let test : (n == head) ≡ false = ground arith in rw (here, test, does, goes) refl

  -- A loop whose body changes the state at one entry only, from which it can go on.
  pub for_each-once :
      (body : ℕ → State c l → State c l) (xs : List ℕ) (n : ℕ) (ys : List ℕ) (fuel b : ℕ)
      (s t : State c l)
      → entries s.list ≡ xs ++ n ∷ ys
      → Idle body s xs
      → body (container_of n) s ≡ t
      → next t.list n ≡ next s.list n
      → Chain (next t.list) head b ys
      → Idle body t ys
      → length (xs ++ n ∷ ys) < fuel
      → for_each c l body fuel (first s.list) s ≡ some t
  for_each-once body xs n ys fuel b s t listed idle does goes chain idle' lt =
      let long = length-middle xs n ys in
      let all = subst (Chain (next s.list) head (first s.list)) listed (l.chained s.list) in
      let (m, (here, inside, rest), past) =
        for_each-past body xs (n ∷ ys) (first s.list) fuel s all idle (omega (arith, long)) in
      let onward = Chain-start (next s.list) (next t.list) (next s.list n) b ys rest chain in
      let (e, ended, past') =
        for_each-past body ys [] (next s.list n) (fuel - length xs - 1) t
          (subst (Chain (next t.list) head (next s.list n)) (sym (append-nil ys)) onward) idle'
          (omega (arith, long)) in
      past
      ∙ ap (λ k. for_each c l body k m s) (omega (arith, long))
      ∙ step_on body (fuel - length xs - 1) m n s t here inside does goes
      ∙ past'
      ∙ ap (λ k. for_each c l body k e t) (omega (arith, long))
      ∙ for_each-end body (fuel - length xs - 1 - length ys - 1) e t ended
