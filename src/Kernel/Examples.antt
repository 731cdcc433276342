-- ===== src/Kernel/Examples.antt =====
-- The interfaces can be met: a member at a fixed offset, lists kept as plain sequences, interrupt
-- lines as a function to the devices of each.
use lkb.Common.{
  ℕ, ◌+◌, ◌-◌, ◌≡◌, ◌≢◌, refl, List, [], ◌∷◌, ◌++◌, erase, arith, pos, Bool, ◌==◌, if◌then◌else◌,
  false, ◌||◌,
}
use lkb.Common.Events.{Io}
use lkb.Kernel.ContainerOf.{ContainerOf}
use lkb.Kernel.ListHead.{ListHead}
use lkb.Kernel.IrqApi.{IrqApi}

pub member-ne_null : (t : ℕ) → t + 8 ≢ 0
member-ne_null t = omega arith

pub container_of-member : (t : ℕ) → t + 8 - 8 ≡ t
container_of-member t = omega arith

-- The member stands eight bytes into its object.
abbrev pub layout : ContainerOf
layout = record {
  member = λ t. t + 8;
  container_of = λ p. p - 8;
  container_of-member = container_of-member;
  member-ne_null = member-ne_null;
}

abbrev pub sequence : ListHead
sequence = record {
  Store = List ℕ;
  entries = λ xs. xs;
  init_list_head = λ xs. [];
  list_add = λ n xs. n ∷ xs;
  list_add_tail = λ n xs. xs ++ n ∷ [];
  list_del = λ n xs. erase n xs;
  entries-init = λ s. refl;
  entries-add = λ n s out. refl;
  entries-add_tail = λ n s out. refl;
  entries-del = λ n s once here. refl;
}

abbrev at : (ℕ → List ℕ) → ℕ → List ℕ → ℕ → List ℕ
at ls irq ds n = if n == irq then ds else ls n

pub at-same : (ls : ℕ → List ℕ) (irq : ℕ) (ds : List ℕ) → at ls irq ds irq ≡ ds
at-same ls irq ds = ground arith

pub at-other : (ls : ℕ → List ℕ) (irq : ℕ) (ds : List ℕ) (n : ℕ) → n ≢ irq → at ls irq ds n ≡ ls n
at-other ls irq ds n h = ground arith

abbrev call_each : {E : Type 0} → (ℕ → Io E Bool) → List ℕ → Io E Bool
call_each handler [] = ([], false)
call_each handler (d ∷ ds) =
    let rest = call_each handler ds in ((handler d).0 ++ rest.0, (handler d).1 || rest.1)

abbrev pub lines : IrqApi
lines = record {
  Lines = ℕ → List ℕ;
  on_line = λ ls n. ls n;
  request_irq = λ irq dev ls. (pos 0, at ls irq (ls irq ++ dev ∷ []));
  free_irq = λ irq dev ls. at ls irq (erase dev (ls irq));
  on_line-request = λ irq dev ls good. at-same ls irq (ls irq ++ dev ∷ []);
  on_line-request_failed = λ irq dev ls n bad. elim (bad refl) [ ];
  on_line-request_other = λ irq dev ls n h. at-other ls irq (ls irq ++ dev ∷ []) n h;
  on_line-free = λ irq dev ls. at-same ls irq (erase dev (ls irq));
  on_line-free_other = λ irq dev ls n h. at-other ls irq (erase dev (ls irq)) n h;
  handle_irq = call_each;
  handle_irq-nil = λ handler. refl;
  handle_irq-cons = λ handler d ds. refl;
}

-- The network card, 300, is on every line.
abbrev pub card : ℕ → List ℕ
card n = 300 ∷ []

abbrev pub handles : ℕ → Bool
handles d = d == 300
