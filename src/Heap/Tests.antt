-- ===== src/Heap/Tests.antt =====
-- kernel/mm/heap.c: runs, and the theorems at a heap of three blocks.
use gnuwindows.Base.{
  ℕ, ◌+◌, ◌≡◌, refl, true, false, some, List, [], ◌∷◌, arith, Memory, read32, read64, write32,
  write64,
}
use gnuwindows.Pmm.Pages.{alloc_pages}
use gnuwindows.Heap.Blocks.{Heap, head, magic_free, magic_alloc, canary_of, deref}
use gnuwindows.Heap.Insert.{insert_free}
use gnuwindows.Heap.Alloc.{
  search, exhausted, need_of, align_up, is_power_of_two, pages_for, kmalloc_aligned,
}
use gnuwindows.Heap.Release.{is_alloc, kfree}
use gnuwindows.Heap.Chain.{Entry, end, link, IsFreeList, first_fit, search-first_fit}
use gnuwindows.Heap.Free.{placed, Gap}
use gnuwindows.Heap.Freed.{insert_free-placed}
use gnuwindows.Heap.Kfree.{kfree-placed}
use gnuwindows.Heap.Exhausted.{served, kmalloc_aligned_fails}

abbrev header : ℕ → ℕ → ℕ → ℕ → Memory → Memory
header a magic size next m =
    write32 a magic
      (write32 (a + 4) size (write64 (a + 8) next (write32 (a + 16) (canary_of magic) m)))

-- free blocks at 0x1000 and 0x10D4, and between them one that is in use
abbrev memory : Memory
memory =
    header 0x1000 magic_free 100 0x10D4
      (header 0x107C magic_alloc 64 0 (header 0x10D4 magic_free 200 0 λ a. 0))

abbrev heap : Heap
heap = record {
  mem = memory;
  free_list = 0x1000;
  heap_total = 436;
  heap_used = 88;
  heap_ready = true;
  pmm = record { bitmap = λ b. 0; total = 0; used = 0; highest_page = 0; ready = false };
}

abbrev blocks : List Entry
blocks = (0x1000, 100) ∷ (0x10D4, 200) ∷ []

heap-IsFreeList : IsFreeList heap blocks
unfolding read32 read64 write32 write64
heap-IsFreeList =
    link (omega arith) refl refl refl refl (link (omega arith) refl refl refl refl end)

heap-Gap : Gap heap ((0x1000, 100) ∷ []) 0x107C 64 ((0x10D4, 200) ∷ [])
unfolding read32 read64 write32 write64
heap-Gap = record {
  next = 0x10D4;
  before = link (omega arith) refl refl refl refl end;
  after = link (omega arith) refl refl refl refl end;
  sorted = (omega arith, tt);
  below = (omega arith, tt);
  above = (omega arith, tt);
  inside = (omega arith, tt);
  positive = omega arith;
  bounded = omega arith;
  small_before = omega arith;
  small_after = omega arith;
}

heap-size : read32 memory 0x1080 ≡ 64
unfolding read32 write32 write64
heap-size = refl

heap-is_alloc : is_alloc 0x107C heap ≡ true
unfolding is_alloc read32 write32 write64
heap-is_alloc = refl

insert_example :
    (h' : Heap) × (insert_free 2 0x107C heap ≡ some h')
    × IsFreeList h' (placed ((0x1000, 100) ∷ []) 0x107C 64 ((0x10D4, 200) ∷ []))
insert_example =
    insert_free-placed heap 2 0x107C 64 ((0x1000, 100) ∷ []) ((0x10D4, 200) ∷ []) heap-size heap-Gap
      (omega arith)

-- The block joins the one after it, and not the one before it, which ends at it too.
placed_once :
    placed ((0x1000, 100) ∷ []) 0x107C 64 ((0x10D4, 200) ∷ []) ≡ (0x1000, 100) ∷ (0x107C, 288) ∷ []
placed_once = refl

kfree_example :
    (h' : Heap) × (kfree 2 0x1094 heap ≡ some h')
    × IsFreeList h' (placed ((0x1000, 100) ∷ []) 0x107C 64 ((0x10D4, 200) ∷ []))
kfree_example =
    kfree-placed heap 2 0x107C 64 ((0x1000, 100) ∷ []) ((0x10D4, 200) ∷ []) refl heap-is_alloc
      heap-size heap-Gap (omega arith) (omega arith)

heap-head : deref head heap ≡ 0x1000
unfolding deref
heap-head = refl

search_example : search 3 128 head heap ≡ some (first_fit 128 head blocks)
search_example =
    search-first_fit 3 128 head heap {p = 0x1000} {l = blocks} heap-head heap-IsFreeList
      (omega arith)

heap_no_block : first_fit (need_of 1000 (served 16)) head blocks ≡ exhausted
unfolding need_of align_up is_power_of_two
heap_no_block = refl

heap_no_pages : (alloc_pages (pages_for (need_of 1000 (served 16))) heap.pmm).0 ≡ 0
unfolding alloc_pages
heap_no_pages = refl

no_memory_example :
    kmalloc_aligned 1 3 1000 16 heap
    ≡ some
        (0, record heap { pmm = (alloc_pages (pages_for (need_of 1000 (served 16))) heap.pmm).1 })
no_memory_example =
    kmalloc_aligned_fails 0 3 1000 16 heap blocks refl (omega arith) heap-IsFreeList heap_no_block
      heap_no_pages (omega arith)
