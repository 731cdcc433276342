-- ===== src/Kernel/ListHead.antt =====
-- The circular list of linux/list.h behind its documented behaviour, for the one list that a module
-- keeps. An entry is the address of a `struct list_head` inside an object.
use lkb.Common.{
  ℕ, zero, suc, ◌≡◌, ◌≢◌, ◌<◌, ◌≤◌, refl, ◌∙◌, ap, sym, List, [], ◌∷◌, ◌++◌, has, erase, Distinct,
  true, false, arith, ℕ_discrete,
}
use mathlib.Core.List.{append-nil}

pub record ListHead : Type 1 where
  pub Store : Type 0
  -- The entries from the head on.
  pub entries : Store → List ℕ
  pub init_list_head : Store → Store
  pub list_add : ℕ → Store → Store
  pub list_add_tail : ℕ → Store → Store
  pub list_del : ℕ → Store → Store
  pub entries-init : (s : Store) → entries (init_list_head s) ≡ []
  -- `list_add` inserts after the head, as on a stack.
  pub entries-add :
      (n : ℕ) (s : Store) → has n (entries s) ≡ false → entries (list_add n s) ≡ n ∷ entries s
  -- `list_add_tail` inserts before the head, as in a queue.
  pub entries-add_tail :
      (n : ℕ) (s : Store)
      → has n (entries s) ≡ false
      → entries (list_add_tail n s) ≡ entries s ++ n ∷ []
  -- `list_del` takes the entry out of the list that it is in.
  pub entries-del :
      (n : ℕ) (s : Store)
      → Distinct (entries s)
      → has n (entries s) ≡ true
      → entries (list_del n s) ≡ erase n (entries s)

-- The entries e (n - 1), …, e 0.
abbrev pub down : (ℕ → ℕ) → ℕ → List ℕ
down e zero = []
down e (suc n) = e n ∷ down e n

-- The first n values are distinct.
abbrev pub Injective : ℕ → (ℕ → ℕ) → Type 0
Injective n e = (i j : ℕ) → i < n → j < n → e i ≡ e j → i ≡ j

pub Injective-weaken : (m n : ℕ) (e : ℕ → ℕ) → m ≤ n → Injective n e → Injective m e
Injective-weaken m n e le apart i j a b same = apart i j (omega arith) (omega arith) same

pub has-down_of_ne : (e : ℕ → ℕ) (a n : ℕ) → ((i : ℕ) → i < n → a ≢ e i) → has a (down e n) ≡ false
has-down_of_ne e a zero ne = refl
has-down_of_ne e a (suc n) ne =
    ground (arith, ne n, has-down_of_ne e a n (λ i lt. ne i (omega arith)))

pub has-down : (e : ℕ → ℕ) (i n : ℕ) → i < n → has (e i) (down e n) ≡ true
has-down e i zero lt = elim lt [ ]
has-down e i (suc n) lt = elim (ℕ_discrete i n) [
  | yes same ↦ rw same (ground arith)
  | no other ↦ ground (arith, has-down e i n)
]

pub has-down_next : (e : ℕ → ℕ) (n : ℕ) → Injective (suc n) e → has (e n) (down e n) ≡ false
has-down_next e n apart =
    has-down_of_ne e (e n) n
      (λ i lt same. omega (arith, apart n i (omega arith) (omega arith) same))

pub down-Distinct : (e : ℕ → ℕ) (n : ℕ) → Injective n e → Distinct (down e n)
down-Distinct e zero apart = tt
down-Distinct e (suc n) apart =
    (has-down_next e n apart, down-Distinct e n (Injective-weaken n (suc n) e (omega arith) apart))

module _ (l : ListHead) where
  open l use {Store, entries, list_add, entries-add}

  -- `list_add` of e 0, …, e (n - 1) in turn.
  unfoldable pub add_each : (ℕ → ℕ) → ℕ → Store → Store
  add_each e zero s = s
  add_each e (suc n) s = list_add (e n) (add_each e n s)

  pub entries-add_each :
      (e : ℕ → ℕ) (n : ℕ) (s : Store)
      → Injective n e
      → entries s ≡ []
      → entries (add_each e n s) ≡ down e n
  unfolding add_each
  entries-add_each e zero s apart empty = empty
  entries-add_each e (suc n) s apart empty =
      let ih = entries-add_each e n s (Injective-weaken n (suc n) e (omega arith) apart) empty in
      entries-add (e n) (add_each e n s) (rw ih (has-down_next e n apart)) ∙ ap (λ xs. e n ∷ xs) ih

-- The first of the entries taken out of them and of what stands behind.
pub erase-down_first :
    (e : ℕ → ℕ) (n : ℕ) (xs : List ℕ)
    → Injective (suc n) e
    → erase (e 0) (down e (suc n) ++ xs) ≡ down (λ i. e (suc i)) n ++ xs
erase-down_first e zero xs apart = ground arith
erase-down_first e (suc n) xs apart =
    let ih =
      erase-down_first e n xs (Injective-weaken (suc n) (suc (suc n)) e (omega arith) apart) in
    let ne : e (suc n) ≢ e 0 =
      λ same. omega (arith, apart (suc n) 0 (omega arith) (omega arith) same) in
    ground arith

pub Injective-suc : (n : ℕ) (e : ℕ → ℕ) → Injective (suc n) e → Injective n (λ i. e (suc i))
Injective-suc n e apart i j a b same =
    omega (arith, apart (suc i) (suc j) (omega arith) (omega arith) same)

-- `list_del` of the first entry that went in.
pub entries-del_first :
    (l : ListHead) (e : ℕ → ℕ) (n : ℕ) (s : l.Store)
    → Injective (suc n) e
    → l.entries s ≡ down e (suc n)
    → l.entries (l.list_del (e 0) s) ≡ down (λ i. e (suc i)) n
entries-del_first l e n s apart listed =
    l.entries-del (e 0) s (rw listed (down-Distinct e (suc n) apart))
      (rw listed (has-down e 0 (suc n) (omega arith)))
    ∙ ap (erase (e 0)) (listed ∙ sym (append-nil (down e (suc n))))
    ∙ erase-down_first e n [] apart
    ∙ append-nil (down (λ i. e (suc i)) n)
