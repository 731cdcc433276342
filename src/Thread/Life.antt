-- ===== src/Thread/Life.antt =====
-- thread01/code.c from `km_init` to `km_exit`.
use lkb.Common.{
  is_zero, Bool-cases, inl, inr, ℕ, zero, suc, ◌+◌, ◌≡◌, ◌≢◌, ◌<◌, ◌⊎◌, refl, ◌∙◌, ap, ap₂, ℤ, pos,
  negsuc, List, [], ◌∷◌, ◌++◌, map, ◌==◌, if◌then◌else◌, Option, none, some, erase, arith,
}
use lkb.Kernel.ContainerOf.{ContainerOf}
use lkb.Kernel.ListHead.{ListHead, Injective, down, erase-down_first, add_each, entries-add_each}
use lkb.Thread.{
  Event, created, data_line, woken, stop, stopped_line, all_created, kmalloc_failed, kthread_failed,
  separator, goodbye, wake_each, stop_each, free_each, State, create_each, tasks, start_mythread,
  km_init, km_exit,
}
use lkb.Thread.Create.{created_lines, create_each-Created, create_each-task, create_each-Stopped}

down_ext : (e f : ℕ → ℕ) (n : ℕ) → ((i : ℕ) → e i ≡ f i) → down e n ≡ down f n
down_ext e f zero h = refl
down_ext e f (suc n) h = ap₂ (λ x xs. x ∷ xs) (h n) (down_ext e f n h)

-- After i rounds of the loop of `kfree`, i objects are gone.
free_each-down :
    (g : ℕ → ℕ) (i m : ℕ) (xs : List ℕ)
    → Injective (i + m) g
    → free_each g i (down g (i + m) ++ xs) ≡ down (λ j. g (i + j)) m ++ xs
unfolding free_each
free_each-down g zero m xs apart =
    ap (λ ys. ys ++ xs)
      (ap (down g) (omega arith) ∙ down_ext g (λ j. g (0 + j)) m (λ j. ap g (omega arith)))
free_each-down g (suc i) m xs apart =
    ap (λ n. erase (g i) (free_each g i (down g n ++ xs))) (shift i m)
    ∙ ap (erase (g i))
        (free_each-down g i (suc m) xs (λ j k a b e. apart j k (omega arith) (omega arith) e))
    ∙ ap (λ n. erase n (down (λ j. g (i + j)) (suc m) ++ xs)) (ap g (omega arith))
    ∙ erase-down_first (λ j. g (i + j)) m xs
        (λ j k a b e. omega (arith, apart (i + j) (i + k) (omega arith) (omega arith) e))
    ∙ ap (λ ys. ys ++ xs)
        (down_ext (λ j. g (i + suc j)) (λ j. g (suc i + j)) m (λ j. ap g (omega arith)))
  where
    shift : (i m : ℕ) → suc i + m ≡ i + suc m
    shift i m = omega arith

-- The threads that are asked to stop, and the numbers in the lines of those that have stopped.
abbrev pub asked_to_stop : List Event → List ℕ
asked_to_stop [] = []
asked_to_stop (stop t ∷ es) = t ∷ asked_to_stop es
asked_to_stop (_ ∷ es) = asked_to_stop es

abbrev pub ended : List Event → List ℕ
ended [] = []
ended (stopped_line i ∷ es) = i ∷ ended es
ended (_ ∷ es) = ended es

-- How many of the results are 0, and the first n numbers from i on.
abbrev pub zeros : List ℤ → ℕ
zeros [] = 0
zeros (e ∷ es) = if is_zero e then suc (zeros es) else zeros es

abbrev pub count_up : (i n : ℕ) → List ℕ
count_up i zero = []
count_up i (suc n) = i ∷ count_up (suc i) n

module _ (c : ContainerOf) (l : ListHead) (kmalloc : ℕ → ℕ) (kthread_create : ℕ → Option ℕ)
    (threads : ℕ → ℕ) where
  -- Where round k of five is the first in which `kmalloc` or `kthread_create` fails, `km_init`
  -- returns -1, wakes no thread and leaves the list as it was; the objects of the earlier rounds
  -- stay allocated and their threads created, and also the object of round k where only
  -- `kthread_create` fails.
  pub init_fails :
      (k : ℕ) (s : State c l)
      → k < 5
      → ((i : ℕ) → i < k → kmalloc i ≢ 0)
      → ((i : ℕ) → i < k → kthread_create i ≡ some (threads i))
      → (kmalloc k ≡ 0) ⊎ (kthread_create k ≡ none)
      → (r : State c l) × (km_init c l kmalloc kthread_create s ≡ (negsuc 0, r))
        × (r.gwl ≡ s.gwl)
        × (r.live ≡ (if kmalloc k == 0 then [] else kmalloc k ∷ []) ++ (down kmalloc k ++ s.live))
        × (r.log
            ≡ (s.log ++ created_lines threads k)
              ++ (if kmalloc k == 0 then kmalloc_failed k else kthread_failed k) ∷ [])
  unfolding km_init
  init_fails k s lt given made fails =
      let (failed, left) =
        create_each-Stopped c l kmalloc kthread_create threads k 5 s lt given made fails in
      (
        (create_each c l kmalloc kthread_create 5 s).0,
        rw failed refl,
        left.list_kept,
        left.live_grown,
        left.log_grown,
      )

  map-tasks :
      (task : ℕ → ℕ) (n : ℕ)
      → ((i : ℕ) → i < n → task (kmalloc i) ≡ threads i)
      → map (λ m. task (c.container_of m)) (down (λ i. c.member (kmalloc i)) n) ≡ down threads n
  map-tasks task zero h = refl
  map-tasks task (suc n) h =
      rw (c.container_of-member (kmalloc n), h n (omega arith))
        (ap (λ xs. threads n ∷ xs) (map-tasks task n (λ i lt. h i (omega arith))))

  node-Injective : (n : ℕ) → Injective n kmalloc → Injective n (λ i. c.member (kmalloc i))
  node-Injective n apart i j a b same =
      apart i j a b
        (ground (arith, c.container_of-member (kmalloc i), c.container_of-member (kmalloc j)))

  abbrev added : l.Store → l.Store
  added g = add_each l (λ i. c.member (kmalloc i)) 5 (l.init_list_head g)

  all_tasks :
      (t : State c l)
      → ((i : ℕ) → i < 5 → t.task (kmalloc i) ≡ threads i)
      → Injective 5 kmalloc
      → map (λ n. t.task (c.container_of n)) (l.entries (added t.gwl)) ≡ down threads 5
  all_tasks t held apart =
      ap (map (λ n. t.task (c.container_of n))) (
        entries-add_each l (λ i. c.member (kmalloc i)) 5 (l.init_list_head t.gwl)
          (node-Injective 5 apart) (l.entries-init t.gwl))
      ∙ map-tasks t.task 5 held

  exit_log :
      (kthread_stop : ℕ → ℤ) (ts : List ℕ) (i : ℕ)
      → (asked_to_stop (stop_each kthread_stop i ts) ≡ ts)
        × (ended (stop_each kthread_stop i ts) ≡ count_up i (zeros (map kthread_stop ts)))
  exit_log kthread_stop [] i = (refl, refl)
  exit_log kthread_stop (t ∷ ts) i = elim (Bool-cases (is_zero (kthread_stop t))) [
    | inl e ↦
        let (a, b) = exit_log kthread_stop ts (suc i) in
        rw e (ap (λ xs. t ∷ xs) a, ap (λ xs. i ∷ xs) b)
    | inr e ↦ let (a, b) = exit_log kthread_stop ts i in rw e (ap (λ xs. t ∷ xs) a, b)
  ]

  -- Where `kmalloc` gives five distinct objects and every thread is created, `km_init` returns 0 and
  -- `km_exit` leaves the allocated objects those of before. The events of `km_init` are: the five
  -- threads are created, then all are woken, the last first, each behind its line of data. In `km_exit`
  -- all are asked to stop, in the order in which they were woken, and the calls of `kthread_stop` that
  -- returned 0 are counted from 0 on.
  pub life_lem :
      (kthread_stop : ℕ → ℤ) (s : State c l)
      → ((i : ℕ) → i < 5 → kmalloc i ≢ 0)
      → Injective 5 kmalloc
      → ((i : ℕ) → i < 5 → kthread_create i ≡ some (threads i))
      → (r : State c l) × (es : List Event) × (km_init c l kmalloc kthread_create s ≡ (pos 0, r))
        × ((km_exit c l kmalloc kthread_stop r).live ≡ s.live)
        × (r.log
            ≡ ((s.log
                  ++ created (threads 0)
                    ∷ created (threads 1)
                    ∷ created (threads 2)
                    ∷ created (threads 3)
                    ∷ created (threads 4)
                    ∷ [])
                ++ all_created ∷ [])
              ++ data_line 0
                ∷ woken (threads 4)
                ∷ data_line 1
                ∷ woken (threads 3)
                ∷ data_line 2
                ∷ woken (threads 2)
                ∷ data_line 3
                ∷ woken (threads 1)
                ∷ data_line 4
                ∷ woken (threads 0)
                ∷ separator
                ∷ [])
        × ((km_exit c l kmalloc kthread_stop r).log ≡ r.log ++ (es ++ goodbye ∷ []))
        × (asked_to_stop es ≡ threads 4 ∷ threads 3 ∷ threads 2 ∷ threads 1 ∷ threads 0 ∷ [])
        × (ended es ≡ count_up 0 (zeros (map kthread_stop (down threads 5))))
  unfolding km_init start_mythread km_exit tasks
  life_lem kthread_stop s given apart made =
      let (done, grown) = create_each-Created c l kmalloc kthread_create threads 5 s given made in
      let t = (create_each c l kmalloc kthread_create 5 s).0 in
      let listed =
        all_tasks t (create_each-task c l kmalloc kthread_create threads 5 s given made apart)
          apart in
      let (asked, counted) = exit_log kthread_stop (down threads 5) 0 in
      let r =
        start_mythread c l (record t { gwl = added t.gwl; log = t.log ++ all_created ∷ [] }) in
      (
        r,
        stop_each kthread_stop 0 (down threads 5),
        rw done refl,
        ap (free_each kmalloc 5) grown.live_grown ∙ free_each-down kmalloc 5 0 s.live apart,
        ap (λ ts. (t.log ++ all_created ∷ []) ++ (wake_each 0 ts ++ separator ∷ [])) listed
            ∙ ap
                (λ xs. (xs ++ all_created ∷ []) ++ (wake_each 0 (down threads 5) ++ separator ∷ []))
                grown.log_grown,
        ap (λ ts. r.log ++ (stop_each kthread_stop 0 ts ++ goodbye ∷ [])) listed,
        asked,
        counted,
      )
