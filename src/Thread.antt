-- ===== src/Thread.antt =====
-- thread01/code.c: the threads, the list of them, and what starts and stops them. An object is the
-- address of a `struct mywork`, a thread that of its `task_struct`. The i-th calls of `kmalloc` and
-- `kthread_create` return `kmalloc i`, where 0 is NULL, and `kthread_create i`, where `none` is an
-- error pointer; `kthread_stop` returns an `int` for each thread.
pub mod Create
pub mod Life
pub mod Stop
mod Tests
use lkb.Common.{
  is_zero, ℕ, zero, suc, ℤ, pos, negsuc, List, [], ◌∷◌, ◌++◌, map, Bool, true, false, not, ◌==◌,
  if◌then◌else◌, erase, Option, none, some,
}
use lkb.Kernel.ContainerOf.{ContainerOf}
use lkb.Kernel.ListHead.{ListHead, add_each}

-- What is printed, and the calls that create, wake and stop a thread.
pub data Event : Type 0 where
  kmalloc_failed : ℕ → Event
  kthread_failed : ℕ → Event
  created : ℕ → Event
  all_created : Event
  data_line : ℕ → Event
  woken : ℕ → Event
  separator : Event
  stop : ℕ → Event
  stopped_line : ℕ → Event
  goodbye : Event

-- `ELEMENTS`
abbrev pub elements : ℕ
elements = 5

-- The loop of `start_mythread` from the counter i on.
abbrev pub wake_each : ℕ → List ℕ → List Event
wake_each i [] = []
wake_each i (t ∷ ts) = data_line i ∷ woken t ∷ wake_each (suc i) ts

-- The first loop of `km_exit` from the counter i on; only a result 0 is counted.
abbrev pub stop_each : (kthread_stop : ℕ → ℤ) → ℕ → List ℕ → List Event
stop_each kthread_stop i [] = []
stop_each kthread_stop i (t ∷ ts) =
    let ended = is_zero (kthread_stop t) in
    let rest = stop_each kthread_stop (if ended then suc i else i) ts in
    stop t ∷ (if ended then stopped_line i ∷ rest else rest)

-- `kfree` of g_work[0], …, g_work[n - 1].
unfoldable pub free_each : (ℕ → ℕ) → ℕ → List ℕ → List ℕ
free_each g_work zero live = live
free_each g_work (suc i) live = erase (g_work i) (free_each g_work i live)

module _ (c : ContainerOf) (l : ListHead) where
  open c use {member, container_of}
  open l use {Store, entries, init_list_head}

  -- `gwl`, the field `task` of each object, the allocated objects, the events.
  pub record State : Type 0 where
    pub gwl : Store
    pub task : ℕ → ℕ
    pub live : List ℕ
    pub log : List Event

  -- The first loop of `km_init`: whether all went well.
  unfoldable pub create_each : (ℕ → ℕ) → (ℕ → Option ℕ) → ℕ → State → State × Bool
  create_each kmalloc kthread_create zero s = (s, true)
  create_each kmalloc kthread_create (suc i) s =
      let before = create_each kmalloc kthread_create i s in
      let t = before.0 in
      let p = kmalloc i in
      let u = record t { live = p ∷ t.live } in
      if not before.1
      then before
      else if p == 0
      then (record t { log = t.log ++ kmalloc_failed i ∷ [] }, false)
      else elim (kthread_create i) [
        | none ↦ (record u { log = t.log ++ kthread_failed i ∷ [] }, false)
        | some k ↦ (
          record u { task = λ q. if q == p then k else t.task q; log = t.log ++ created k ∷ [] },
          true,
        )
      ]

  -- The threads of the list, in its order.
  unfoldable pub tasks : State → List ℕ
  tasks s = map (λ n. s.task (container_of n)) (entries s.gwl)

  -- `start_mythread`
  unfoldable pub start_mythread : State → State
  start_mythread s = record s { log = s.log ++ (wake_each 0 (tasks s) ++ separator ∷ []) }

  -- `km_init`
  unfoldable pub km_init : (ℕ → ℕ) → (ℕ → Option ℕ) → State → ℤ × State
  km_init kmalloc kthread_create s =
      let made = create_each kmalloc kthread_create elements s in
      let t = made.0 in
      if not made.1 then (negsuc 0, t) else (
        pos 0,
        start_mythread (record t {
          gwl = add_each l (λ i. member (kmalloc i)) elements (init_list_head t.gwl);
          log = t.log ++ all_created ∷ [];
        }),
      )

  -- `km_exit`
  unfoldable pub km_exit : (ℕ → ℕ) → (ℕ → ℤ) → State → State
  km_exit g_work kthread_stop s = record s {
    live = free_each g_work elements s.live;
    log = s.log ++ (stop_each kthread_stop 0 (tasks s) ++ goodbye ∷ []);
  }
