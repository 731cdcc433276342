-- ===== src/Rcu.antt =====
-- rcu/code.c. A loop over the list reads the link of its entry after its body, and runs on fuel.
-- The i-th call of `kmalloc` returns `kmalloc i`, where 0 is NULL. `rcu_read_lock` and
-- `rcu_read_unlock` change nothing that is kept here, nor does the lock that `update` takes and
-- releases around its one call.
pub mod Walk
pub mod Update
pub mod Links
pub mod Elements
pub mod Run
pub mod Start
pub mod Race
mod Tests
mod RaceTests
use lkb.Common.{
  ℕ, zero, suc, ◌+◌, ◌-◌, List, [], ◌∷◌, ◌++◌, Bool, true, false, ◌==◌, if◌then◌else◌, not, erase,
  Option, none, some, ℤ, pos, negsuc, ◌*◌,
}
use lkb.Kernel.ContainerOf.{ContainerOf}
use lkb.Kernel.RcuList.{RcuList}

-- `#define element 5`
abbrev pub element : ℕ
element = 5

infixl 5 ◌>>=◌
abbrev ◌>>=◌ {ℓ κ} : {A : Type ℓ} {B : Type κ} → Option A → (A → Option B) → Option B
none >>= f = none
some a >>= f = f a

-- What is printed: the value of an element in the round k of reading, a failed `kmalloc`, the data
-- of a destroyed object, a callback without an object.
pub data Line : Type 0 where
  value : (k v : ℕ) → Line
  malloc_failed : ℕ → Line
  deleted : ℕ → Line
  not_valid : Line
  goodbye : Line

module _ (c : ContainerOf) (l : RcuList) where
  open c use {member, container_of}
  open l use {Store, head, first, next, list_add_rcu, list_replace_rcu, list_del_rcu}

  -- `head_mylist`, the allocated objects, the field `data` of each object, `flag`, the objects
  -- whose destruction `call_rcu` has queued (the last first), the lines printed, the calls of
  -- `spin_lock` less those of `spin_unlock`.
  pub record State : Type 0 where
    pub list : Store
    pub data_of : ℕ → ℕ
    pub flag : Bool
    pub queued : List ℕ
    pub live : List ℕ
    pub log : List Line
    pub held : ℕ

  -- `list_for_each_entry` from the entry n on.
  unfoldable pub for_each : (ℕ → State → State) → (fuel n : ℕ) → State → Option State
  for_each body zero n s = none
  for_each body (suc fuel) n s =
      let t = body (container_of n) s in
      let rest = for_each body fuel (next t.list n) t in if n == head then some s else rest

  -- The body of the three loops of a reader, k from 0.
  unfoldable pub show : (k : ℕ) → ℕ → State → State
  show k p s = record s { log = s.log ++ value k (s.data_of p) ∷ [] }

  -- The body of the loop that replaces 10; `new_node` is the address of the global.
  unfoldable pub update : (new_node : ℕ) → ℕ → State → State
  update new_node p s =
      if s.data_of p == 10
      then (record s {
        data_of = λ q. if q == new_node then 1400 else s.data_of q;
        list = list_replace_rcu (member p) (member new_node) s.list;
      })
      else s

  -- The body of the loop that deletes 20: the lock is released, and the destruction queued.
  unfoldable pub delete : ℕ → State → State
  delete p s =
      if s.data_of p == 20
      then (record s {
        flag = true;
        list = list_del_rcu (member p) s.list;
        held = s.held - 1;
        queued = p ∷ s.queued;
      })
      else s

  unfoldable pub read_all : (k fuel : ℕ) → State → Option State
  read_all k fuel s = for_each (show k) fuel (first s.list) s

  unfoldable pub update_all : (fuel new_node : ℕ) → State → Option State
  update_all fuel new_node s = for_each (update new_node) fuel (first s.list) s

  -- `if (flag == 0) spin_unlock(&mylist_lock)`, where the loop has ended.
  abbrev pub unlock_rest : Option State → Option State
  unlock_rest none = none
  unlock_rest (some u) = some (if u.flag then u else record u { held = u.held - 1 })

  -- The part of `start` that deletes, from `flag=0` on.
  unfoldable pub delete_all : (fuel : ℕ) → State → Option State
  delete_all fuel s =
      let t = record s { flag = false; held = s.held + 1 } in
      unlock_rest (for_each delete fuel (first t.list) t)

  -- The first loop of `start`: whether every `kmalloc` returned an object.
  unfoldable pub allocate : (ℕ → ℕ) → ℕ → State → State × Bool
  allocate kmalloc zero s = (s, true)
  allocate kmalloc (suc i) s =
      let before = allocate kmalloc i s in
      let t = before.0 in
      let p = kmalloc i in
      if not before.1
      then before
      else if p == 0
      then (record t { log = t.log ++ malloc_failed i ∷ [] }, false)
      else (
        record t { live = p ∷ t.live; data_of = λ q. if q == p then 10 * i else t.data_of q },
        true,
      )

  -- The second loop, which takes and releases the lock around each call.
  unfoldable pub add_each : (ℕ → ℕ) → ℕ → Store → Store
  add_each val zero g = g
  add_each val (suc i) g = list_add_rcu (member (val i)) (add_each val i g)

  -- `start` after its two loops: the list is read, updated, read, cut and read.
  unfoldable pub use_list : (fuel new_node : ℕ) → State → Option State
  use_list fuel new_node s = do
    s1 ← read_all 0 fuel s
    s2 ← update_all fuel new_node s1
    s3 ← read_all 1 fuel s2
    s4 ← delete_all fuel s3
    read_all 2 fuel s4

  -- `start`. No callback is queued when it calls `synchronize_rcu`.
  unfoldable pub start : (ℕ → ℕ) → (fuel new_node : ℕ) → State → Option (ℤ × State)
  start kmalloc fuel new_node s =
      let made = allocate kmalloc element s in
      let t = made.0 in
      let added = record t { list = add_each kmalloc element t.list } in
      if made.1 then (use_list fuel new_node added >>= λ u. some (pos 0, u)) else some (negsuc 0, t)

  -- `end`
  unfoldable pub end : State → State
  end s = record s { log = s.log ++ goodbye ∷ [] }

  module _ (h : ContainerOf) where
    -- `destroy_old_structure`; h is the layout of the member `rcu`.
    unfoldable pub destroy_old_structure : (rcu_h : ℕ) → State → State
    destroy_old_structure rcu_h s =
        let p = h.container_of rcu_h in
        if p == 0
        then (record s { log = s.log ++ not_valid ∷ [] })
        else (record s { log = s.log ++ deleted (s.data_of p) ∷ []; live = erase p s.live })

    -- The grace period ends: the callbacks of ps, the last queued first, are called in their order.
    unfoldable pub call_each : List ℕ → State → State
    call_each [] s = s
    call_each (p ∷ ps) s = destroy_old_structure (h.member p) (call_each ps s)

    unfoldable pub grace_period : State → State
    grace_period s = call_each s.queued (record s { queued = [] })
