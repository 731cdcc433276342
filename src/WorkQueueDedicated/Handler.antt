-- ===== src/WorkQueueDedicated/Handler.antt =====
-- What every run of the work handler of work_queue_dedicated/code.c keeps, and what it leaves.
use lkb.Common.{
  ◌↔◌, ◌⊎◌, ℕ, zero, suc, ◌+◌, ◌-◌, ◌≡◌, ◌≢◌, ◌<◌, ◌≤◌, inl, inr, refl, ◌∙◌, ap, sym, List, [], ◌∷◌,
  ◌++◌, has, ltb, ltb→lt, ltb_false→le, ◌==◌, if◌then◌else◌, true, false, Bool-cases, arith,
}
use lkb.Kernel.ContainerOf.{ContainerOf}
use lkb.Kernel.ListHead.{ListHead, Injective, down, has-down_of_ne, entries-del_first}
use lkb.WorkQueueDedicated.{
  Line, kmalloc_failed, kmalloc_passed, batch, State, delete_each, add_node, flush_list,
  work_handler,
}

module _ (c : ContainerOf) (l : ListHead) where
  open c use {member, container_of, container_of-member}
  open l use {Store, entries, list_del, entries-add, entries-del}

  -- The list holds f[moving_val - 1], …, f[0]: distinct allocated objects, each with its index as
  -- its value.
  pub record IsValid (s : State c l) : Type 0 where
    pub bound : s.moving_val ≤ batch
    pub listed : entries s.head ≡ down (λ i. member (s.f i)) s.moving_val
    pub apart : Injective s.moving_val s.f
    pub valued : (i : ℕ) → i < s.moving_val → s.value (s.f i) ≡ i
    pub allocated : (i : ℕ) → i < s.moving_val → has (s.f i) s.live ≡ true

  down-cong : (e g : ℕ → ℕ) (n : ℕ) → ((i : ℕ) → i < n → e i ≡ g i) → down e n ≡ down g n
  down-cong e g zero h = refl
  down-cong e g (suc n) h = rw (h n (omega arith), down-cong e g n (λ i lt. h i (omega arith)))

  member-Injective : (f : ℕ → ℕ) (n : ℕ) → Injective n f → Injective n (λ i. member (f i))
  member-Injective f n apart i j a b same =
      apart i j a b (ground (arith, container_of-member (f i), container_of-member (f j)))

  abbrev put : ℕ → ℕ → (ℕ → ℕ) → ℕ → ℕ
  put n p f i = if i == n then p else f i

  put-down : (n p : ℕ) (f : ℕ → ℕ) → down (λ i. member (put n p f i)) n ≡ down (λ i. member (f i)) n
  put-down n p f =
      down-cong (λ i. member (put n p f i)) (λ i. member (f i)) n (λ i lt. ground arith)

  module _ (p : ℕ) (s : State c l) (v : IsValid s) where
    -- A failed `kmalloc` spoils only the slot above the entries.
    failed-IsValid :
        (log : List Line) → IsValid (record s { f = put s.moving_val p s.f; log = log })
    failed-IsValid log = record {
      bound = v.bound;
      listed = v.listed ∙ sym (put-down s.moving_val p s.f);
      apart = λ i j a b e. ground (arith, v.apart i j);
      valued = λ i lt. ground (arith, v.valued i);
      allocated = λ i lt. ground (arith, v.allocated i);
    }

    old-ne : has p s.live ≡ false → (i : ℕ) → i < s.moving_val → p ≢ s.f i
    old-ne fresh i lt = ground (arith, v.allocated i)

    new-listed :
        has p s.live ≡ false
        → entries (l.list_add (member p) s.head)
          ≡ down (λ i. member (put s.moving_val p s.f i)) (suc s.moving_val)
    new-listed fresh =
        entries-add (member p) s.head (rw v.listed out)
        ∙ ap (λ xs. member p ∷ xs) (v.listed ∙ sym (put-down s.moving_val p s.f))
        ∙ ap (λ q. member q ∷ down (λ i. member (put s.moving_val p s.f i)) s.moving_val) at
      where
        out : has (member p) (down (λ i. member (s.f i)) s.moving_val) ≡ false
        out =
            has-down_of_ne (λ i. member (s.f i)) (member p) s.moving_val
              (λ i lt same.
                old-ne fresh i lt
                  (ground (arith, container_of-member p, container_of-member (s.f i))))

        at : p ≡ put s.moving_val p s.f s.moving_val
        at = ground arith

    -- A new object goes in front.
    added-IsValid :
        (log : List Line) (held : ℕ)
        → s.moving_val < batch
        → has p s.live ≡ false
        → IsValid (record s {
          f = put s.moving_val p s.f;
          log = log;
          live = p ∷ s.live;
          value = put p s.moving_val s.value;
          head = l.list_add (member p) s.head;
          moving_val = s.moving_val + 1;
          held = held;
        })
    added-IsValid log held room fresh = record {
      bound = omega arith;
      listed =
          let e : suc s.moving_val ≡ s.moving_val + 1 = omega arith in
          new-listed fresh ∙ ap (down (λ i. member (put s.moving_val p s.f i))) e;
      apart = λ i j a b e. ground (arith, v.apart i j, old-ne fresh i, old-ne fresh j);
      valued = λ i lt. ground (arith, v.valued i, old-ne fresh i);
      allocated = λ i lt. ground (arith, v.allocated i);
    }

  delete_each-front :
      (f : ℕ → ℕ) (n : ℕ) (s : Store)
      → Injective n f
      → entries s ≡ down (λ i. member (f i)) n
      → (k d : ℕ) → k + d ≡ n
      → entries (delete_each c l f k s) ≡ down (λ i. member (f (k + i))) d
  unfolding delete_each
  delete_each-front f n s apart listed zero d e =
      let same : n ≡ d = omega arith in
      listed
      ∙ ap (down (λ i. member (f i))) same
      ∙ down-cong (λ i. member (f i)) (λ i. member (f (0 + i))) d
          (λ i lt. let z : i ≡ 0 + i = omega arith in ap (λ j. member (f j)) z)
  delete_each-front f n s apart listed (suc k) d e =
      let rest = delete_each c l f k s in
      let here : k ≡ k + 0 = omega arith in
      let ih = delete_each-front f n s apart listed k (suc d) (omega arith) in
      ap (λ j. entries (list_del (member (f j)) rest)) here
      ∙ entries-del_first l (λ i. member (f (k + i))) d rest
          (λ i j a b same.
            omega
              (arith, member-Injective f n apart (k + i) (k + j) (omega arith) (omega arith) same))
          ih
      ∙ down-cong (λ i. member (f (k + suc i))) (λ i. member (f (suc k + i))) d
          (λ i lt. let z : k + suc i ≡ suc k + i = omega arith in ap (λ j. member (f j)) z)

  -- The loop of the flush empties a full list.
  pub delete_each-nil :
      (f : ℕ → ℕ) (n : ℕ) (s : Store)
      → Injective n f
      → entries s ≡ down (λ i. member (f i)) n
      → entries (delete_each c l f n s) ≡ []
  delete_each-nil f n s apart listed = delete_each-front f n s apart listed n 0 (omega arith)

  flush_list-IsValid :
      (s : State c l) → IsValid s → s.moving_val ≡ batch → IsValid (flush_list c l s)
  unfolding flush_list
  flush_list-IsValid s v full = record {
    bound = omega arith;
    listed = delete_each-nil s.f batch s.head (rw full at v.apart) (rw full at v.listed);
    apart = λ i j a b e. elim a [ ];
    valued = λ i lt. elim lt [ ];
    allocated = λ i lt. elim lt [ ];
  }

  held-IsValid : (n : ℕ) (s : State c l) → IsValid s → IsValid (record s { held = n })
  held-IsValid n s v = record {
    bound = v.bound;
    listed = v.listed;
    apart = v.apart;
    valued = v.valued;
    allocated = v.allocated;
  }

  -- A run of the handler, with a failed `kmalloc` or a new object, keeps the list and its objects
  -- in step with `moving_val`.
  pub work_handler-IsValid :
      (p : ℕ) (s : State c l) → IsValid s → has p s.live ≡ false → IsValid (work_handler c l p s)
  unfolding work_handler add_node
  work_handler-IsValid p s v fresh =
      let t : State c l = record s { held = s.held + 1 } in
      let w = held-IsValid (s.held + 1) s v in
      elim (Bool-cases (ltb s.moving_val batch)) [
        | inl room ↦ elim (Bool-cases (p == 0)) [
          | inl null ↦
              rw (room, null) (failed-IsValid p t w (s.log ++ kmalloc_failed s.moving_val ∷ []))
          | inr given ↦
              rw (room, given)
                (added-IsValid p t w (s.log ++ kmalloc_passed s.moving_val ∷ []) (s.held + 1 - 1)
                  (ltb→lt s.moving_val batch room) fresh)
        ]
        | inr full ↦ rw full (
            let low = ltb_false→le s.moving_val batch full in
            flush_list-IsValid t w (omega (arith, v.bound)))
      ]

  -- A run of the handler releases its lock, except where it has room for an object and `kmalloc`
  -- fails: then the lock stays held, and the counter, the list and the allocated objects are as
  -- they were.
  pub lock_lem :
      (p : ℕ) (s : State c l)
      → (((work_handler c l p s).held ≡ s.held + 1) ↔ (s.moving_val < batch) × (p ≡ 0))
        × (((work_handler c l p s).held ≡ s.held) ↔ (batch ≤ s.moving_val) ⊎ (p ≢ 0))
        × (s.moving_val < batch
            → p ≡ 0
            → ((work_handler c l p s).moving_val ≡ s.moving_val)
              × ((work_handler c l p s).head ≡ s.head)
              × ((work_handler c l p s).live ≡ s.live))
  unfolding work_handler add_node flush_list
  lock_lem p s = elim (Bool-cases (ltb s.moving_val batch)) [
    | inl room ↦ elim (Bool-cases (p == 0)) [
      | inl null ↦ rw (room, null) (ground arith)
      | inr given ↦ rw (room, given) (ground arith)
    ]
    | inr full ↦ rw full (ground arith)
  ]
