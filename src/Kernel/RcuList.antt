-- ===== src/Kernel/RcuList.antt =====
-- The list of linux/rculist.h that a module keeps, behind its documented behaviour. An entry is the
-- address of a `struct list_head` inside an object; `head` is that of the list's head.
use lkb.Common.{
  ℕ, ◌==◌, ◌≡◌, ◌≢◌, List, [], ◌∷◌, map, has, erase, Distinct, true, false, if◌then◌else◌,
}

-- From n the links lead through the entries to the head.
abbrev pub Chain : (next : ℕ → ℕ) (head n : ℕ) → List ℕ → Type 0
Chain next head n [] = n ≡ head
Chain next head n (x ∷ xs) = (n ≡ x) × (x ≢ head) × Chain next head (next x) xs

abbrev pub replace : (old new : ℕ) → List ℕ → List ℕ
replace old new = map (λ n. if n == old then new else n)

pub record RcuList : Type 1 where
  pub Store : Type 0
  pub head : ℕ
  pub first : Store → ℕ
  pub next : Store → ℕ → ℕ
  pub entries : Store → List ℕ
  pub list_add_rcu : ℕ → Store → Store
  pub list_replace_rcu : (old new : ℕ) → Store → Store
  pub list_del_rcu : ℕ → Store → Store
  pub chained : (s : Store) → Chain (next s) head (first s) (entries s)
  pub entries-add :
      (n : ℕ) (s : Store)
      → n ≢ head
      → has n (entries s) ≡ false
      → entries (list_add_rcu n s) ≡ n ∷ entries s
  pub entries-replace :
      (old new : ℕ) (s : Store)
      → new ≢ head
      → Distinct (entries s)
      → has old (entries s) ≡ true
      → has new (entries s) ≡ false
      → entries (list_replace_rcu old new s) ≡ replace old new (entries s)
  pub entries-del :
      (n : ℕ) (s : Store)
      → Distinct (entries s)
      → has n (entries s) ≡ true
      → entries (list_del_rcu n s) ≡ erase n (entries s)
  -- A reader that stands on an entry that is taken out can go on from it.
  pub next-replace :
      (old new : ℕ) (s : Store) → new ≢ old → next (list_replace_rcu old new s) old ≡ next s old
  pub next-del : (n : ℕ) (s : Store) → next (list_del_rcu n s) n ≡ next s n
