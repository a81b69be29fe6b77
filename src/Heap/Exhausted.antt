-- ===== src/Heap/Exhausted.antt =====
-- kernel/mm/heap.c: `kmalloc_aligned` when there is no memory.
use gnuwindows.Base.{
  ℕ, suc, ◌<◌, ◌≡◌, refl, ap, ◌∙◌, Bool, true, false, some, List, arith, ◌==◌, ltb, if◌then◌else◌,
  ◌||◌, not, length, fail,
}
use gnuwindows.Pmm.Pages.{alloc_pages}
use gnuwindows.Heap.Blocks.{Heap, head, deref}
use gnuwindows.Heap.Alloc.{
  exhausted, heap_align, is_power_of_two, pages_for, add_pages, expand_heap, need_of, after_expand,
  after_search, alloc_loop, kmalloc_aligned,
}
use gnuwindows.Heap.Chain.{Entry, IsFreeList, first_fit, search-first_fit}

expand_heap_fails :
    (fuel need : ℕ) (h : Heap)
    → (alloc_pages (pages_for need) h.pmm).0 ≡ 0
    → expand_heap fuel need h
      ≡ some (fail, record h { pmm = (alloc_pages (pages_for need) h.pmm).1 })
unfolding expand_heap add_pages
expand_heap_fails fuel need h e = rw e refl

alloc_loop_fails :
    (rounds fuel need asked align : ℕ) (h : Heap) (l : List Entry)
    → IsFreeList h l
    → first_fit need head l ≡ exhausted
    → (alloc_pages (pages_for need) h.pmm).0 ≡ 0
    → length l < fuel
    → alloc_loop (suc rounds) fuel need asked align h
      ≡ some (0, record h { pmm = (alloc_pages (pages_for need) h.pmm).1 })
unfolding alloc_loop after_search after_expand deref
alloc_loop_fails rounds fuel need asked align h l free none' pages lt =
    let found' = search-first_fit fuel need head h refl free lt ∙ ap some none' in
    rw (found', expand_heap_fails fuel need h pages) refl

guard {ℓ} :
    {A : Type ℓ} (b c : Bool) (x y : A) → b ≡ true → c ≡ false → (if not b || c then x else y) ≡ y
guard b c x y e f = rw (e, f) refl

-- the alignment that `kmalloc_aligned` serves
abbrev pub served : ℕ → ℕ
served align = if not (is_power_of_two align) || ltb align heap_align then heap_align else align

-- On a running heap, `kmalloc_aligned` of a positive size, for which the free list has no block that
-- is large enough and the page allocator has no pages, returns NULL in its first round, and leaves
-- the memory, the free list and the counters of the heap alone.
pub kmalloc_aligned_fails :
    (rounds fuel asked align : ℕ) (h : Heap) (l : List Entry)
    → h.heap_ready ≡ true
    → 0 < asked
    → IsFreeList h l
    → first_fit (need_of asked (served align)) head l ≡ exhausted
    → (alloc_pages (pages_for (need_of asked (served align))) h.pmm).0 ≡ 0
    → length l < fuel
    → kmalloc_aligned (suc rounds) fuel asked align h
      ≡ some
          (0, record h { pmm = (alloc_pages (pages_for (need_of asked (served align))) h.pmm).1 })
unfolding kmalloc_aligned
kmalloc_aligned_fails rounds fuel asked align h l ready pos free none' pages lt =
    let a = served align in
    guard h.heap_ready (asked == 0) (some (0, h))
      (alloc_loop (suc rounds) fuel (need_of asked a) asked a h) ready (ground arith)
    ∙ alloc_loop_fails rounds fuel (need_of asked a) asked a h l free none' pages lt
