-- ===== src/Rcu/Update.antt =====
-- The loops of rcu/code.c that replace one entry and that delete one.
use lkb.Common.{
  ℕ, ◌+◌, ◌-◌, ◌≡◌, ◌≢◌, ◌<◌, refl, ◌∙◌, ap, List, [], ◌∷◌, ◌++◌, true, false, ◌==◌, if◌then◌else◌,
  some, length, has, has-append, erase, Distinct, arith,
}
use mathlib.Core.Path.{subst}
use lkb.Kernel.ContainerOf.{ContainerOf}
use lkb.Kernel.RcuList.{RcuList, Chain, replace}
use lkb.Rcu.{State, for_each, update, delete, unlock_rest, update_all, delete_all}
use lkb.Rcu.Walk.{Idle, Chain-drop, for_each-once}

-- No entry holds v.
abbrev pub Lacks : (value : ℕ → ℕ) (v : ℕ) → List ℕ → Type 0
Lacks value v [] = Unit {0}
Lacks value v (x ∷ xs) = (value x ≢ v) × Lacks value v xs

Distinct-middle :
    (xs : List ℕ) (n : ℕ) (ys : List ℕ)
    → Distinct (xs ++ n ∷ ys)
    → (has n xs ≡ false) × (has n ys ≡ false)
Distinct-middle [] n ys d = (refl, d.0)
Distinct-middle (x ∷ xs) n ys d =
    let ih = Distinct-middle xs n ys d.1 in
    (ground (arith, has-append x xs (n ∷ ys), d.0, ih.0), ih.1)

pub has-middle : (xs : List ℕ) (n : ℕ) (ys : List ℕ) → has n (xs ++ n ∷ ys) ≡ true
has-middle [] n ys = ground arith
has-middle (x ∷ xs) n ys = ground (arith, has-middle xs n ys)

replace-none : (n new : ℕ) (ys : List ℕ) → has n ys ≡ false → replace n new ys ≡ ys
replace-none n new [] h = refl
replace-none n new (y ∷ ys) h = ground (arith, replace-none n new ys)

replace-middle :
    (xs : List ℕ) (n new : ℕ) (ys : List ℕ)
    → has n xs ≡ false
    → has n ys ≡ false
    → replace n new (xs ++ n ∷ ys) ≡ xs ++ new ∷ ys
replace-middle [] n new ys h k = ground (arith, replace-none n new ys k)
replace-middle (x ∷ xs) n new ys h k = ground (arith, replace-middle xs n new ys)

erase-middle :
    (xs : List ℕ) (n : ℕ) (ys : List ℕ) → has n xs ≡ false → erase n (xs ++ n ∷ ys) ≡ xs ++ ys
erase-middle [] n ys h = ground arith
erase-middle (x ∷ xs) n ys h = ground (arith, erase-middle xs n ys)

ne_middle : (m n : ℕ) (xs ys : List ℕ) → has m (xs ++ n ∷ ys) ≡ false → m ≢ n
ne_middle m n [] ys h = ground arith
ne_middle m n (x ∷ xs) ys h = ne_middle m n xs ys (ground arith)

module _ (c : ContainerOf) (l : RcuList) where
  open c use {member, container_of, container_of-member}
  open l use {Store, head, first, next, entries, list_replace_rcu, list_del_rcu}

  -- The data of the object of an entry.
  abbrev pub held_by : State c l → ℕ → ℕ
  held_by s n = s.data_of (container_of n)

  update-Idle :
      (new : ℕ) (s : State c l) (xs : List ℕ)
      → Lacks (held_by s) 10 xs
      → Idle c l (update c l new) s xs
  unfolding update
  update-Idle new s [] h = tt
  update-Idle new s (x ∷ xs) (h, hs) =
      let test : (held_by s x == 10) ≡ false = ground arith in
      (rw test refl, update-Idle new s xs hs)

  pub delete-Idle :
      (s : State c l) (xs : List ℕ) → Lacks (held_by s) 20 xs → Idle c l (delete c l) s xs
  unfolding delete
  delete-Idle s [] h = tt
  delete-Idle s (x ∷ xs) (h, hs) =
      let test : (held_by s x == 20) ≡ false = ground arith in (rw test refl, delete-Idle s xs hs)

  Lacks-update :
      (value : ℕ → ℕ) (new : ℕ) (ys : List ℕ)
      → Lacks (λ n. value (container_of n)) 10 ys
      → Lacks (λ n. if container_of n == new then 1400 else value (container_of n)) 10 ys
  Lacks-update value new [] h = tt
  Lacks-update value new (y ∷ ys) (h, hs) = (ground arith, Lacks-update value new ys hs)

  -- Where the entries of the list are distinct and exactly one object of it holds 10, and
  -- `new_node` is not in it, the loop ends with more rounds than entries: `new_node` holds 1400 and
  -- stands in the place of that object, and nothing else is changed.
  pub update_all_lem :
      (fuel new p : ℕ) (xs ys : List ℕ) (s : State c l)
      → entries s.list ≡ xs ++ member p ∷ ys
      → Distinct (xs ++ member p ∷ ys)
      → Lacks (held_by s) 10 xs
      → s.data_of p ≡ 10
      → Lacks (held_by s) 10 ys
      → member new ≢ head
      → has (member new) (xs ++ member p ∷ ys) ≡ false
      → length (xs ++ member p ∷ ys) < fuel
      → (g : Store) × (update_all c l fuel new s
          ≡ some (record s { data_of = λ q. if q == new then 1400 else s.data_of q; list = g }))
        × (entries g ≡ xs ++ member new ∷ ys)
  unfolding update_all update
  update_all_lem fuel new p xs ys s listed apart before it after inside out lt =
      let g = list_replace_rcu (member p) (member new) s.list in
      let t : State c l = record s {
        data_of = λ q. if q == new then 1400 else s.data_of q;
        list = g;
      } in
      let alone = Distinct-middle xs (member p) ys apart in
      let replaced : entries g ≡ xs ++ member new ∷ ys =
        l.entries-replace (member p) (member new) s.list inside (rw listed apart)
          (rw listed (has-middle xs (member p) ys)) (rw listed out)
        ∙ ap (replace (member p) (member new)) listed
        ∙ replace-middle xs (member p) (member new) ys alone.0 alone.1 in
      let other = ne_middle (member new) (member p) xs ys out in
      let chain = subst (Chain (next g) head (first g)) replaced (l.chained g) in
      (
        g,
        for_each-once c l (update c l new) xs (member p) ys fuel (next g (member new)) s t listed
            (update-Idle new s xs before) (rw (container_of-member p, it) refl)
            (l.next-replace (member p) (member new) s.list other)
            (Chain-drop c l (next g) (first g) (member new) xs ys chain)
            (update-Idle new t ys (Lacks-update s.data_of new ys after)) lt,
        replaced,
      )

  Chain-suffix :
      (f : ℕ → ℕ) (n : ℕ) (xs ys : List ℕ) → Chain f head n (xs ++ ys) → (b : ℕ) × Chain f head b ys
  Chain-suffix f n [] ys h = (n, h)
  Chain-suffix f n (x ∷ xs) ys h = Chain-suffix f (f x) xs ys h.2

  delete_one :
      (fuel p : ℕ) (xs ys : List ℕ) (s : State c l)
      → entries s.list ≡ xs ++ member p ∷ ys
      → Distinct (xs ++ member p ∷ ys)
      → Lacks (held_by s) 20 xs
      → s.data_of p ≡ 20
      → Lacks (held_by s) 20 ys
      → length (xs ++ member p ∷ ys) < fuel
      → let g = list_del_rcu (member p) s.list in
        (for_each c l (delete c l) fuel (first s.list) s
          ≡ some (record s { flag = true; list = g; queued = p ∷ s.queued; held = s.held - 1 }))
        × (entries g ≡ xs ++ ys)
  unfolding delete
  delete_one fuel p xs ys s listed apart before it after lt =
      let g = list_del_rcu (member p) s.list in
      let t : State c l = record s {
        flag = true;
        list = g;
        queued = p ∷ s.queued;
        held = s.held - 1;
      } in
      let alone = Distinct-middle xs (member p) ys apart in
      let gone : entries g ≡ xs ++ ys =
        l.entries-del (member p) s.list (rw listed apart) (rw listed (has-middle xs (member p) ys))
        ∙ ap (erase (member p)) listed
        ∙ erase-middle xs (member p) ys alone.0 in
      let (b, chain) =
        Chain-suffix (next g) (first g) xs ys
          (subst (Chain (next g) head (first g)) gone (l.chained g)) in
      (
        for_each-once c l (delete c l) xs (member p) ys fuel b s t listed (delete-Idle s xs before)
            (rw (container_of-member p, it) refl) (l.next-del (member p) s.list) chain
            (delete-Idle t ys after) lt,
        gone,
      )

  -- Where the entries of the list are distinct and exactly one object of it holds 20, the deleting
  -- part of `start` ends with more rounds than entries: that object is taken off the list and
  -- queued for its destruction once, `flag` is set, the lock is released as often as it is taken,
  -- and nothing else is changed.
  pub delete_all_lem :
      (fuel p : ℕ) (xs ys : List ℕ) (s : State c l)
      → entries s.list ≡ xs ++ member p ∷ ys
      → Distinct (xs ++ member p ∷ ys)
      → Lacks (held_by s) 20 xs
      → s.data_of p ≡ 20
      → Lacks (held_by s) 20 ys
      → length (xs ++ member p ∷ ys) < fuel
      → (g : Store) × (delete_all c l fuel s
          ≡ some (record s { flag = true; list = g; queued = p ∷ s.queued }))
        × (entries g ≡ xs ++ ys)
  unfolding delete_all
  delete_all_lem fuel p xs ys s listed apart before it after lt =
      let t : State c l = record s { flag = false; held = s.held + 1 } in
      let (done, gone) = delete_one fuel p xs ys t listed apart before it after lt in
      let g = list_del_rcu (member p) s.list in
      (
        g,
        ap (unlock_rest c l) done
            ∙ ap (λ h. some (record s { flag = true; list = g; queued = p ∷ s.queued; held = h }))
                (omega arith),
        gone,
      )
