-- ===== src/Rcu/Run.antt =====
-- What `start` of rcu/code.c does with its list of five elements.
use lkb.Common.{
  ℕ, ◌*◌, ◌≡◌, ◌≢◌, ◌<◌, refl, ◌∙◌, ap, List, [], ◌∷◌, ◌++◌, map, true, false, ◌==◌, if◌then◌else◌,
  Option, some, length, has, Distinct, arith,
}
use lkb.Kernel.ContainerOf.{ContainerOf}
use lkb.Kernel.ListHead.{Injective, down, has-down_of_ne, down-Distinct}
use lkb.Kernel.RcuList.{RcuList}
use lkb.Rcu.{◌>>=◌, Line, value, State, read_all, update_all, delete_all, use_list}
use lkb.Rcu.Walk.{read_all_lem}
use lkb.Rcu.Update.{held_by, update_all_lem, delete_all_lem}

-- The lines of round k of reading.
abbrev pub lines : ℕ → List ℕ → List Line
lines k vs = map (value k) vs

has-replaced :
    (a new : ℕ) (xs : List ℕ) (n : ℕ) (ys : List ℕ)
    → a ≢ new
    → has a (xs ++ n ∷ ys) ≡ false
    → has a (xs ++ new ∷ ys) ≡ false
has-replaced a new [] n ys ne h = ground arith
has-replaced a new (x ∷ xs) n ys ne h = ground (arith, has-replaced a new xs n ys)

-- A new entry in the place of another.
Distinct-replaced :
    (xs : List ℕ) (n new : ℕ) (ys : List ℕ)
    → Distinct (xs ++ n ∷ ys)
    → has new (xs ++ n ∷ ys) ≡ false
    → Distinct (xs ++ new ∷ ys)
Distinct-replaced [] n new ys d h = (ground arith, d.1)
Distinct-replaced (x ∷ xs) n new ys d h = (
  ground (arith, has-replaced x new xs n ys, d.0),
  Distinct-replaced xs n new ys d.1 (ground arith),
)

bind_some :
    {A B : Type 0} (f : A → Option B) {m : Option A} {a : A} {r : Option B}
    → m ≡ some a
    → f a ≡ r
    → (m >>= f) ≡ r
bind_some f e k = ap (λ x. x >>= f) e ∙ k

module _ (c : ContainerOf) (l : RcuList) where
  open c use {member, container_of, container_of-member}
  open l use {Store, head, entries}

  map-value :
      (k : ℕ) (s : State c l) (xs : List ℕ)
      → map (λ x. value k (s.data_of (container_of x))) xs ≡ lines k (map (held_by c l s) xs)
  map-value k s [] = refl
  map-value k s (x ∷ xs) = ap (λ ys. value k (held_by c l s x) ∷ ys) (map-value k s xs)

  read_values :
      (k fuel : ℕ) (s : State c l) (es vs : List ℕ)
      → entries s.list ≡ es
      → length es < fuel
      → map (held_by c l s) es ≡ vs
      → read_all c l k fuel s ≡ some (record s { log = s.log ++ lines k vs })
  read_values k fuel s es vs listed lt held =
      read_all_lem c l k fuel s (rw listed lt)
      ∙ ap (λ xs. some (record s { log = s.log ++ xs }))
          (map-value k s (entries s.list)
            ∙ ap (λ xs. lines k (map (held_by c l s) xs)) listed
            ∙ ap (lines k) held)

  module _ (kmalloc : ℕ → ℕ) (apart : Injective 5 kmalloc) (new : ℕ)
      (elsewhere : (i : ℕ) → i < 5 → new ≢ kmalloc i) (inside : member new ≢ head) where
    abbrev node : ℕ → ℕ
    node i = member (kmalloc i)

    node-Injective : Injective 5 node
    node-Injective i j a b same =
        apart i j a b
          (ground (arith, container_of-member (kmalloc i), container_of-member (kmalloc j)))

    new_out : has (member new) (down node 5) ≡ false
    new_out = has-down_of_ne node (member new) 5 (λ i lt same.
        elsewhere i lt (ground (arith, container_of-member new, container_of-member (kmalloc i))))

    -- What the list and the objects are when `use_list` has ended.
    pub record Used (s r : State c l) : Type 0 where
      pub listed : entries r.list ≡ node 4 ∷ node 3 ∷ member new ∷ node 0 ∷ []
      pub queued : r.queued ≡ kmalloc 2 ∷ s.queued
      pub flagged : r.flag ≡ true
      pub live_kept : r.live ≡ s.live
      pub held_kept : r.held ≡ s.held
      pub field_kept : (i : ℕ) → i < 5 → r.data_of (kmalloc i) ≡ 10 * i
      pub logged :
          r.log
          ≡ ((s.log ++ lines 0 (40 ∷ 30 ∷ 20 ∷ 10 ∷ 0 ∷ []))
              ++ lines 1 (40 ∷ 30 ∷ 20 ∷ 1400 ∷ 0 ∷ []))
            ++ lines 2 (40 ∷ 30 ∷ 1400 ∷ 0 ∷ [])

    module _ (fuel : ℕ) (enough : 5 < fuel) (s : State c l) (listed : entries s.list ≡ down node 5)
        (field : (i : ℕ) → i < 5 → s.data_of (kmalloc i) ≡ 10 * i) where
      held : (i : ℕ) → i < 5 → held_by c l s (node i) ≡ 10 * i
      held i lt = ap s.data_of (container_of-member (kmalloc i)) ∙ field i lt

      -- The fields once `new_node` holds 1400.
      abbrev field' : ℕ → ℕ
      field' q = if q == new then 1400 else s.data_of q

      held' : (i : ℕ) → i < 5 → field' (container_of (node i)) ≡ 10 * i
      held' i lt =
          ap field' (container_of-member (kmalloc i)) ∙ ground (arith, elsewhere i, field i)

      held_new : field' (container_of (member new)) ≡ 1400
      held_new = ap field' (container_of-member new) ∙ ground arith

      pub use_list-Used : (r : State c l) × (use_list c l fuel new s ≡ some r) × Used s r
      unfolding use_list
      use_list-Used =
          let s1 : State c l = record s { log = s.log ++ lines 0 (40 ∷ 30 ∷ 20 ∷ 10 ∷ 0 ∷ []) } in
          let full = down-Distinct node 5 node-Injective in
          let (g2, updated, listed2) =
            update_all_lem c l fuel new (kmalloc 1) (node 4 ∷ node 3 ∷ node 2 ∷ []) (node 0 ∷ []) s1
              listed full
              (omega (arith, held 4), (omega (arith, held 3), (omega (arith, held 2), tt)))
              (omega (arith, field 1)) (omega (arith, held 0), tt) inside new_out enough in
          let s2 : State c l = record s1 { data_of = field'; list = g2 } in
          let s3 : State c l = record s2 {
            log = s1.log ++ lines 1 (40 ∷ 30 ∷ 20 ∷ 1400 ∷ 0 ∷ []);
          } in
          let (g4, deleted, listed4) =
            delete_all_lem c l fuel (kmalloc 2) (node 4 ∷ node 3 ∷ []) (member new ∷ node 0 ∷ []) s3
              listed2
              (Distinct-replaced (node 4 ∷ node 3 ∷ node 2 ∷ []) (node 1) (member new) (node 0 ∷ [])
                full new_out)
              (omega (arith, held' 4), (omega (arith, held' 3), tt))
              (ground (arith, elsewhere 2, field 2))
              (omega (arith, held_new), (omega (arith, held' 0), tt)) enough in
          let s4 : State c l = record s3 {
            flag = true;
            list = g4;
            queued = kmalloc 2 ∷ s3.queued;
          } in
          (
            record s4 { log = s3.log ++ lines 2 (40 ∷ 30 ∷ 1400 ∷ 0 ∷ []) },
            bind_some
                (λ x. update_all c l fuel new x >>= λ x.
                  read_all c l 1 fuel x >>= λ x. delete_all c l fuel x >>= read_all c l 2 fuel)
                (read_values 0 fuel s (down node 5) (40 ∷ 30 ∷ 20 ∷ 10 ∷ 0 ∷ []) listed enough
                  (ground (arith, held 4, held 3, held 2, held 1, held 0)))
                (bind_some
                  (λ x.
                    read_all c l 1 fuel x >>= λ x. delete_all c l fuel x >>= read_all c l 2 fuel)
                  updated
                  (bind_some (λ x. delete_all c l fuel x >>= read_all c l 2 fuel)
                    (read_values 1 fuel s2 _ (40 ∷ 30 ∷ 20 ∷ 1400 ∷ 0 ∷ []) listed2 enough
                      (ground (arith, held' 4, held' 3, held' 2, held_new, held' 0)))
                    (bind_some (read_all c l 2 fuel) deleted (
                      read_values 2 fuel s4 _ (40 ∷ 30 ∷ 1400 ∷ 0 ∷ []) listed4 (omega arith)
                        (ground (arith, held' 4, held' 3, held_new, held' 0)))))),
            record {
              listed = listed4;
              queued = refl;
              flagged = refl;
              live_kept = refl;
              held_kept = refl;
              field_kept = λ i lt. ground (arith, elsewhere i, field i);
              logged = refl;
            },
          )
