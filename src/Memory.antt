-- ===== src/Memory.antt =====
-- memory1/code.c and memory2/code.c: what the two modules ask of the allocators. Each call of an
-- allocator is an event with the pointer that it returned, an argument of the model; 0 is NULL.
pub mod Balance
mod Tests
use lkb.Common.{ℕ, ℤ, pos, negsuc, ◌==◌, if◌then◌else◌}
use lkb.Common.Events.{Io, ◌>>=◌, ◌>>◌, emit, return}

-- The allocators, each with its own function to free.
pub data Allocator : Type 0 where
  pages : Allocator  -- alloc_page, alloc_pages; __free_pages
  free_pages : Allocator  -- __get_free_pages; free_pages
  kzalloc : Allocator  -- kzalloc; kzfree
  kmalloc : Allocator  -- kmalloc; kfree
  vmalloc : Allocator  -- vmalloc; vfree

-- `size` is an order for pages, and a number of bytes otherwise; only pages are freed with an
-- order.
pub data Event : Type 0 where
  alloc : Allocator → (size result : ℕ) → Event
  free : Allocator → (size pointer : ℕ) → Event
  failed : Allocator → Event
  done : Allocator → Event
  page_address : ℕ → Event
  virt_to_page : ℕ → Event
  virt_to_phys : ℕ → Event
  kmap : ℕ → Event
  kunmap : ℕ → Event

-- `code_init` of memory1; `address` is what `page_address(p1)` returns.
unfoldable pub code_init : (p p1 address va : ℕ) → Io Event ℤ
code_init p p1 address va = do
  emit (alloc pages 0 p)
  if p == 0 then emit (failed pages) >> return (negsuc 0) else do
    emit (done pages)
    emit (free pages 0 p)
    emit (alloc pages 3 p1)
    if p1 == 0 then emit (failed pages) >> return (negsuc 0) else do
      emit (done pages)
      emit (page_address p1)
      emit (virt_to_page address)
      emit (free pages 3 p1)
      emit (alloc free_pages 3 va)
      if va == 0
          then emit (failed free_pages) >> return (negsuc 0)
          else do emit (done free_pages); emit (free free_pages 3 va); return (pos 0)

-- `sizeof(int) * 5`
abbrev pub five_ints : ℕ
five_ints = 20

-- `memory_init` of memory2; `kfree` and its kin take no size, which is written 0.
unfoldable pub memory_init : (cleared small large p : ℕ) → Io Event ℤ
memory_init cleared small large p = do
  emit (alloc kzalloc five_ints cleared)
  if cleared == 0 then emit (failed kzalloc) >> return (negsuc 0) else do
    emit (free kzalloc 0 cleared)
    emit (alloc kmalloc five_ints small)
    if small == 0 then emit (failed kmalloc) >> return (negsuc 0) else do
      emit (virt_to_phys small)
      emit (free kmalloc 0 small)
      emit (alloc vmalloc 40960 large)
      if large == 0 then emit (failed vmalloc) >> return (negsuc 0) else do
        emit (free vmalloc 0 large)
        emit (alloc pages 3 p)
        if p == 0 then emit (failed pages) >> return (negsuc 0) else do
          emit (done pages)
          emit (kmap p)
          emit (kunmap p)
          emit (free pages 3 p)
          return (pos 0)
