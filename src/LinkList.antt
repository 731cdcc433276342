-- ===== src/LinkList.antt =====
-- link_list/code.c. The i-th call of `kmalloc` returns `kmalloc i`, where 0 is NULL; `temp` is the
-- address of the local `struct foo`; the list belongs to the kernel. An `int` here is never
-- negative but as a result: `pos 0` is 0 and `negsuc 0` is -1.
pub mod Entries
pub mod Run
pub mod Success
pub mod Failure
mod Tests
use lkb.Common.{
  ℕ, zero, suc, ◌*◌, ℤ, pos, negsuc, List, [], ◌∷◌, ◌++◌, map, Bool, true, false, ◌==◌,
  if◌then◌else◌, erase,
}
use lkb.Kernel.ContainerOf.{ContainerOf}
use lkb.Kernel.ListHead.{ListHead}

-- What is printed: an element, the line below a list, a failed `kmalloc`.
pub data Line : Type 0 where
  data_line : ℕ → Line
  separator : Line
  kmalloc_failed : ℕ → Line

module _ (c : ContainerOf) (l : ListHead) where
  open c use {member, container_of}
  open l use {Store, entries, init_list_head, list_add, list_add_tail, list_del}

  -- `mylist`, the field `a` of each `struct foo`, the allocated objects, and the lines printed.
  pub record State : Type 0 where
    pub mylist : Store
    pub a : ℕ → ℕ
    pub live : List ℕ
    pub log : List Line

  -- `print_list`
  unfoldable pub print_list : State → State
  print_list s = record s {
    log =
        s.log ++ (map (λ n. data_line (s.a (container_of n))) (entries s.mylist) ++ separator ∷ []);
  }

  -- `fvar[i]->a = i*100`, `temp.a = 1400`
  unfoldable pub set_a : ℕ → ℕ → State → State
  set_a p v s = record s { a = λ q. if q == p then v else s.a q }

  -- The first loop: whether every `kmalloc` returned an object.
  unfoldable pub allocate : (ℕ → ℕ) → ℕ → State → State × Bool
  unfolding set_a
  allocate kmalloc zero s = (s, true)
  allocate kmalloc (suc i) s =
      let before = allocate kmalloc i s in
      let t = before.0 in
      let p = kmalloc i in
      if before.1
      then (if p == 0
          then (record t { log = t.log ++ kmalloc_failed i ∷ [] }, false)
          else (set_a p (i * 100) (record t { live = p ∷ t.live }), true))
      else before

  -- The last loop: `kfree` of fvar[0], …, fvar[n - 1].
  unfoldable pub free_each : (ℕ → ℕ) → ℕ → State → State
  free_each fvar zero s = s
  free_each fvar (suc i) s = let t = free_each fvar i s in record t { live = erase (fvar i) t.live }

  unfoldable pub on_list : (Store → Store) → State → State
  on_list f s = record s { mylist = f s.mylist }

  -- `start` after its first loop.
  unfoldable pub use_list : (ℕ → ℕ) → ℕ → State → State
  unfolding on_list
  use_list fvar temp s =
      let s1 = on_list (list_add (member (fvar 0))) s in
      let s2 = on_list (list_add (member (fvar 1))) s1 in
      let s3 = on_list (list_add (member (fvar 2))) s2 in
      let s4 = on_list (list_add (member (fvar 3))) s3 in
      let s5 = print_list (on_list (list_add (member (fvar 4))) s4) in
      let s6 = print_list (on_list (list_add_tail (member temp)) (set_a temp 1400 s5)) in
      let s7 = on_list (list_del (member temp)) s6 in
      let s8 = print_list (on_list (list_del (member (fvar 0))) s7) in free_each fvar 5 s8

  -- `start`
  unfoldable pub start : (ℕ → ℕ) → ℕ → State → ℤ × State
  unfolding on_list
  start kmalloc temp s =
      let made = allocate kmalloc 5 (on_list init_list_head s) in
      if made.1 then (pos 0, use_list kmalloc temp made.0) else (negsuc 0, made.0)
