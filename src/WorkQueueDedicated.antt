-- ===== src/WorkQueueDedicated.antt =====
-- work_queue_dedicated/code.c: the work handler and what it keeps. An object is the address of a
-- `struct data`; one run of the handler makes at most one call of `kmalloc`, whose result is an
-- argument, where 0 is NULL. `held` counts the calls of `spin_lock` less those of `spin_unlock`.
pub mod Handler
pub mod Batch
pub mod Loading
pub mod Account
pub mod Queue
mod Tests
mod QueueTests
use lkb.Common.{ℕ, zero, suc, ◌+◌, ◌-◌, List, [], ◌∷◌, ◌++◌, map, ltb, ◌==◌, if◌then◌else◌}
use lkb.Kernel.ContainerOf.{ContainerOf}
use lkb.Kernel.ListHead.{ListHead}

-- What is printed.
pub data Line : Type 0 where
  kmalloc_failed : ℕ → Line
  kmalloc_passed : ℕ → Line
  flush : Line
  link_list : ℕ → Line
  deleting : ℕ → Line

-- The length of the array `f`, after which the list is flushed.
abbrev pub batch : ℕ
batch = 14

-- The lines of the loop that takes the first n objects off the list.
abbrev pub deleting_lines : ℕ → List Line
deleting_lines zero = []
deleting_lines (suc i) = deleting_lines i ++ deleting i ∷ []

module _ (c : ContainerOf) (l : ListHead) where
  open c use {member, container_of}
  open l use {Store, entries, list_add, list_del}

  -- `moving_val`, `f`, the field `value` of each object, the list `head`, the allocated objects.
  pub record State : Type 0 where
    pub moving_val : ℕ
    pub f : ℕ → ℕ
    pub value : ℕ → ℕ
    pub head : Store
    pub live : List ℕ
    pub log : List Line
    pub held : ℕ

  -- `print_list`: the lines.
  unfoldable pub print_list : State → List Line
  print_list s = flush ∷ map (λ n. link_list (s.value (container_of n))) (entries s.head)

  -- The loop that takes f[0], …, f[n - 1] off the list.
  unfoldable pub delete_each : (ℕ → ℕ) → ℕ → Store → Store
  delete_each f zero s = s
  delete_each f (suc i) s = list_del (member (f i)) (delete_each f i s)

  -- The branch that adds an object `p`, or finds that `kmalloc` has failed and returns at once.
  unfoldable pub add_node : ℕ → State → State
  add_node p s =
      let n = s.moving_val in
      let t = record s { f = λ i. if i == n then p else s.f i } in
      if p == 0 then record t { log = t.log ++ kmalloc_failed n ∷ [] } else record t {
        log = t.log ++ kmalloc_passed n ∷ [];
        live = p ∷ t.live;
        value = λ q. if q == p then n else t.value q;
        head = list_add (member p) t.head;
        moving_val = n + 1;
        held = t.held - 1;
      }

  -- The branch that prints the list and takes its entries off.
  unfoldable pub flush_list : State → State
  flush_list s = record s {
    moving_val = 0;
    log = s.log ++ (print_list s ++ deleting_lines batch);
    head = delete_each s.f batch s.head;
    held = s.held - 1;
  }

  -- `work_handler`
  unfoldable pub work_handler : ℕ → State → State
  work_handler p s =
      let t = record s { held = s.held + 1 } in
      if ltb t.moving_val batch then add_node p t else flush_list t
