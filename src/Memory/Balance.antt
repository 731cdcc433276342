-- ===== src/Memory/Balance.antt =====
-- Both modules of memory1 and memory2 give back what they get, whichever allocation fails.
use lkb.Common.{
  ℕ, ℤ, has, ◌∙◌, ◌≡◌, pos, negsuc, Bool, true, false, ◌&&◌, ◌==◌, if◌then◌else◌, List, [], ◌∷◌,
  Option, none, some, arith,
}
use lkb.Common.Events.{Io}
use lkb.Memory.{
  Allocator, pages, free_pages, kzalloc, kmalloc, vmalloc, Event, alloc, free, failed, code_init,
  memory_init,
}

pub record Block : Type 0 where
  pub from : Allocator
  pub size : ℕ
  pub pointer : ℕ

abbrev same_allocator : Allocator → Allocator → Bool
same_allocator pages pages = true
same_allocator free_pages free_pages = true
same_allocator kzalloc kzalloc = true
same_allocator kmalloc kmalloc = true
same_allocator vmalloc vmalloc = true
same_allocator _ _ = false

-- The size with which a block is freed: the order of pages, none for the others.
abbrev free_size : Allocator → ℕ → ℕ
free_size pages n = n
free_size free_pages n = n
free_size _ n = 0

abbrev frees : Allocator → ℕ → ℕ → Block → Bool
frees a n p b = same_allocator a b.from && ((n == free_size b.from b.size) && (p == b.pointer))

-- The blocks that are left after the events, the last first; `none` if a call gives back a block
-- that is not allocated, or not the one allocated last, or by the wrong function or order.
unfoldable pub replay : List Event → List Block → Option (List Block)
replay [] bs = some bs
replay (alloc a n p ∷ es) bs =
    replay es (if p == 0 then bs else record { from = a; size = n; pointer = p } ∷ bs)
replay (free a n p ∷ es) [] = none
replay (free a n p ∷ es) (b ∷ bs) = let rest = replay es bs in if frees a n p b then rest else none
replay (e ∷ es) bs = replay es bs

-- Whether an allocation has failed, and something is done after that.
unfoldable pub stops_at_failure : List Event → Bool
stops_at_failure [] = true
stops_at_failure (failed a ∷ []) = true
stops_at_failure (failed a ∷ e ∷ es) = false
stops_at_failure (e ∷ es) = stops_at_failure es

-- What code leaves whose allocations return these pointers.
abbrev pub Balanced : List ℕ → Io Event ℤ → Type 0
Balanced ps m =
    (replay m.0 [] ≡ some [])
    × (stops_at_failure m.0 ≡ true)
    × (m.1 ≡ (if has 0 ps then negsuc 0 else pos 0))

-- Whatever the allocators return, memory1's `code_init` frees each block that it gets once, by the
-- function and with the order that fit it; it ends at the first failure, and returns 0 exactly if
-- none of the three allocations fails and -1 otherwise.
pub code_init_balanced :
    (p p1 address va : ℕ)
    → (replay (code_init p p1 address va).0 [] ≡ some [])
      × (stops_at_failure (code_init p p1 address va).0 ≡ true)
      × ((code_init p p1 address va).1 ≡ (
          if p == 0
          then negsuc 0
          else if p1 == 0
          then negsuc 0
          else if va == 0
          then negsuc 0
          else pos 0))
unfolding code_init replay stops_at_failure
code_init_balanced p p1 address va = ground arith

-- Whatever the allocators return, memory2's `memory_init` frees each block that it gets once, by
-- the function and with the order that fit it; it ends at the first failure, and returns 0 exactly
-- if none of the four allocations fails and -1 otherwise.
pub memory_init_balanced :
    (cleared small large p : ℕ)
    → (replay (memory_init cleared small large p).0 [] ≡ some [])
      × (stops_at_failure (memory_init cleared small large p).0 ≡ true)
      × ((memory_init cleared small large p).1 ≡ (
          if cleared == 0
          then negsuc 0
          else if small == 0
          then negsuc 0
          else if large == 0
          then negsuc 0
          else if p == 0
          then negsuc 0
          else pos 0))
unfolding memory_init replay stops_at_failure
memory_init_balanced cleared small large p = ground arith

-- Whatever the allocators return, `code_init` of memory1 and `memory_init` of memory2 free each
-- block that they get once, by the function and with the order that fit it; each ends at its first
-- failure, and returns 0 exactly if none of its allocations fails and -1 otherwise.
pub init-Balanced :
    (p p1 address va cleared small large q : ℕ)
    → Balanced (p ∷ p1 ∷ va ∷ []) (code_init p p1 address va)
      × Balanced (cleared ∷ small ∷ large ∷ q ∷ []) (memory_init cleared small large q)
init-Balanced p p1 address va cleared small large q =
    let (all, stops, result) = code_init_balanced p p1 address va in
    let (all', stops', result') = memory_init_balanced cleared small large q in
    ((all, stops, result ∙ ground arith), (all', stops', result' ∙ ground arith))
