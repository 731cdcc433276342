-- ===== src/Thread/Create.antt =====
-- The first loop of `km_init` of thread01/code.c.
use lkb.Common.{
  ℕ, zero, suc, ◌≡◌, ◌≢◌, ◌<◌, ◌⊎◌, inl, inr, refl, ◌∙◌, ap, sym, List, [], ◌∷◌, ◌++◌, Bool, true,
  false, ◌==◌, if◌then◌else◌, Option, none, some, arith, ℕ_discrete, Bool-cases,
}
use mathlib.Core.Path.{subst}
use mathlib.Core.List.{append_assoc, append-nil}
use lkb.Kernel.ContainerOf.{ContainerOf}
use lkb.Kernel.ListHead.{ListHead, Injective, down}
use lkb.Thread.{Event, created, kmalloc_failed, kthread_failed, State, create_each}

-- The events of n rounds that go well.
abbrev pub created_lines : (ℕ → ℕ) → ℕ → List Event
created_lines threads zero = []
created_lines threads (suc i) = created_lines threads i ++ created (threads i) ∷ []

module _ (c : ContainerOf) (l : ListHead) (kmalloc : ℕ → ℕ) (kthread_create : ℕ → Option ℕ)
    (threads : ℕ → ℕ) where
  pub record Created (n : ℕ) (s t : State c l) : Type 0 where
    pub list_kept : t.gwl ≡ s.gwl
    pub live_grown : t.live ≡ down kmalloc n ++ s.live
    pub log_grown : t.log ≡ s.log ++ created_lines threads n

  pub create_each-Created :
      (n : ℕ) (s : State c l)
      → ((i : ℕ) → i < n → kmalloc i ≢ 0)
      → ((i : ℕ) → i < n → kthread_create i ≡ some (threads i))
      → ((create_each c l kmalloc kthread_create n s).1 ≡ true)
        × Created n s (create_each c l kmalloc kthread_create n s).0
  unfolding create_each
  create_each-Created zero s given made =
      (refl, record { list_kept = refl; live_grown = refl; log_grown = sym (append-nil s.log) })
  create_each-Created (suc n) s given made =
      let (done, before) =
        create_each-Created n s (λ i lt. given i (omega arith)) (λ i lt. made i (omega arith)) in
      let got : (kmalloc n == 0) ≡ false = ground (arith, given n) in
      rw (done, got, made n (omega arith))
        (
          refl,
          record {
            list_kept = before.list_kept;
            live_grown = ap (λ xs. kmalloc n ∷ xs) before.live_grown;
            log_grown =
                ap (λ xs. xs ++ created (threads n) ∷ []) before.log_grown ∙ append_assoc s.log _ _;
          },
        )

  pub create_each-task :
      (n : ℕ) (s : State c l)
      → ((i : ℕ) → i < n → kmalloc i ≢ 0)
      → ((i : ℕ) → i < n → kthread_create i ≡ some (threads i))
      → Injective n kmalloc
      → (i : ℕ) → i < n
      → (create_each c l kmalloc kthread_create n s).0.task (kmalloc i) ≡ threads i
  unfolding create_each
  create_each-task zero s given made apart i lt = omega arith
  create_each-task (suc n) s given made apart i lt =
      let ok =
        create_each-Created n s (λ j k. given j (omega arith)) (λ j k. made j (omega arith)) in
      let ih =
        create_each-task n s (λ j k. given j (omega arith)) (λ j k. made j (omega arith))
          (λ j k a b e. apart j k (omega arith) (omega arith) e) i in
      let got : (kmalloc n == 0) ≡ false = ground (arith, given n) in
      rw (ok.0, got, made n (omega arith)) (ground (arith, ih, apart i n))

  -- What the loop has done when it stops in round k.
  pub record Stopped (k : ℕ) (s t : State c l) : Type 0 where
    pub list_kept : t.gwl ≡ s.gwl
    pub live_grown :
        t.live ≡ (if kmalloc k == 0 then [] else kmalloc k ∷ []) ++ (down kmalloc k ++ s.live)
    pub log_grown :
        t.log
        ≡ (s.log ++ created_lines threads k)
          ++ (if kmalloc k == 0 then kmalloc_failed k else kthread_failed k) ∷ []

  create_each-stop :
      (k : ℕ) (s : State c l)
      → ((i : ℕ) → i < k → kmalloc i ≢ 0)
      → ((i : ℕ) → i < k → kthread_create i ≡ some (threads i))
      → (kmalloc k ≡ 0) ⊎ (kthread_create k ≡ none)
      → ((create_each c l kmalloc kthread_create (suc k) s).1 ≡ false)
        × Stopped k s (create_each c l kmalloc kthread_create (suc k) s).0
  unfolding create_each
  create_each-stop k s given made fails =
      let (done, before) = create_each-Created k s given made in
      elim (Bool-cases (kmalloc k == 0)) [
        | inl null ↦
            rw (done, null)
              (
                refl,
                record {
                  list_kept = before.list_kept;
                  live_grown = before.live_grown ∙ ap live_if (sym null);
                  log_grown =
                      ap (λ xs. xs ++ kmalloc_failed k ∷ []) before.log_grown
                      ∙ ap log_if (sym null);
                },
              )
        | inr object ↦
            let error : kthread_create k ≡ none = ground (arith, fails) in
            rw (done, object, error)
              (
                refl,
                record {
                  list_kept = before.list_kept;
                  live_grown =
                      ap (λ xs. kmalloc k ∷ xs) before.live_grown ∙ ap live_if (sym object);
                  log_grown =
                      ap (λ xs. xs ++ kthread_failed k ∷ []) before.log_grown
                      ∙ ap log_if (sym object);
                },
              )
      ]
    where
      live_if : Bool → List ℕ
      live_if b = (if b then [] else kmalloc k ∷ []) ++ (down kmalloc k ++ s.live)

      log_if : Bool → List Event
      log_if b =
          (s.log ++ created_lines threads k)
          ++ (if b then kmalloc_failed k else kthread_failed k) ∷ []

  still :
      (k n : ℕ) (s : State c l)
      → ((create_each c l kmalloc kthread_create n s).1 ≡ false)
        × Stopped k s (create_each c l kmalloc kthread_create n s).0
      → ((create_each c l kmalloc kthread_create (suc n) s).1 ≡ false)
        × Stopped k s (create_each c l kmalloc kthread_create (suc n) s).0
  unfolding create_each
  still k n s ih = rw ih.0 (refl, ih.1)

  pub create_each-Stopped :
      (k n : ℕ) (s : State c l)
      → k < n
      → ((i : ℕ) → i < k → kmalloc i ≢ 0)
      → ((i : ℕ) → i < k → kthread_create i ≡ some (threads i))
      → (kmalloc k ≡ 0) ⊎ (kthread_create k ≡ none)
      → ((create_each c l kmalloc kthread_create n s).1 ≡ false)
        × Stopped k s (create_each c l kmalloc kthread_create n s).0
  create_each-Stopped k zero s lt given made fails = elim lt [ ]
  create_each-Stopped k (suc n) s lt given made fails = elim (ℕ_discrete k n) [
    | no other ↦ still k n s (create_each-Stopped k n s (omega arith) given made fails)
    | yes same ↦
        subst
          (λ m.
            ((create_each c l kmalloc kthread_create (suc m) s).1 ≡ false)
            × Stopped k s (create_each c l kmalloc kthread_create (suc m) s).0)
          same (create_each-stop k s given made fails)
  ]
