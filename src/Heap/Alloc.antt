-- ===== src/Heap/Alloc.antt =====
-- kernel/mm/heap.c: `heap_init`, `kmalloc`, `kmalloc_aligned`. A `size_t` wraps at `word`, and
-- `~(a - 1)` is `word - a`. The walks run on `fuel`, and the loop `for (;;)` on `rounds`.
use gnuwindows.Base.{
  ℕ, zero, suc, ◌+◌, ◌-◌, ◌*◌, ◌/◌, ◌%◌, ◌^◌, Bool, true, Option, none, some, ◌>>=◌, ◌==◌, ltb, leb,
  if◌then◌else◌, ◌&&◌, ◌||◌, not, bit_and, Status, ok, fail, write64,
}
use gnuwindows.Pmm.Pages.{page_size, alloc_pages}
use gnuwindows.Heap.Blocks.{
  Heap, Link, head, next_of, header_size, magic_alloc, magic_free, canary_of, magic, size, next,
  canary, set_magic, set_size, set_next, set_canary, set_bytes, deref, store,
}
use gnuwindows.Heap.Insert.{insert_free}

abbrev pub word : ℕ
word = 2 ^ 64

abbrev pub heap_align : ℕ
heap_align = 16

abbrev pub min_block : ℕ
min_block = 32

abbrev expand_pages : ℕ
expand_pages = 16

unfoldable pub align_up : ℕ → ℕ → ℕ
align_up v a = bit_and ((v + a + word - 1) % word) (word - a)

unfoldable pub is_power_of_two : ℕ → Bool
is_power_of_two v = not (v == 0) && bit_and v (v - 1) == 0

-- the number of pages that `expand_heap` asks for
unfoldable pub pages_for : ℕ → ℕ
pages_for need_payload =
    let need = (header_size + need_payload + min_block) % word in
    let pages = (need + page_size - 1) % word / page_size in
    if ltb pages expand_pages then expand_pages else pages

-- a run of pages at `phys` becomes a free block
unfoldable pub add_pages : ℕ → ℕ → ℕ → Heap → Option (Status × Heap)
add_pages fuel phys pages h =
    if phys == 0
    then some (fail, h)
    else let h = set_size phys (pages * page_size - header_size) h in
      let h = record h { heap_total = (h.heap_total + pages * page_size) % word } in
      insert_free fuel phys h >>= λ h. some (ok, h)

unfoldable pub expand_heap : ℕ → ℕ → Heap → Option (Status × Heap)
expand_heap fuel need_payload h =
    let pages = pages_for need_payload in
    let r = alloc_pages pages h.pmm in add_pages fuel r.0 pages (record h { pmm = r.1 })

unfoldable pub started : Status × Heap → Status × Heap
started (fail, h) = (fail, h)
started (ok, h) = (ok, record h { heap_ready = true })

unfoldable pub heap_init : ℕ → Heap → Option (Status × Heap)
heap_init fuel h =
    let h = record h { free_list = 0; heap_total = 0; heap_used = 0 } in
    expand_heap fuel page_size h >>= λ r. some (started r)

-- How the walk of `kmalloc_aligned` along the free list ends: at a damaged header, at the link to a
-- block that is large enough, or at the end of the list.
pub data Search : Type 0 where
  corrupt : Search
  found : Link → Search
  exhausted : Search

unfoldable pub search : ℕ → ℕ → Link → Heap → Option Search
search zero need pp h = none
search (suc fuel) need pp h =
    let b = deref pp h in
    let rest = search fuel need (next_of b) h in
    if b == 0
    then some exhausted
    else if not (magic b h == magic_free) || not (canary b h == canary_of magic_free)
    then some corrupt
    else if leb need (size b h)
    then some (found pp)
    else rest

-- The block at `b`, which is out of the list, gives back what is beyond `need`.
unfoldable pub split : ℕ → ℕ → ℕ → Heap → Option Heap
split fuel b need h =
    let remain = size b h - need in
    let rest = b + header_size + need in
    if leb (header_size + min_block) remain
    then (insert_free fuel rest (set_size rest (remain - header_size) h) >>= λ h.
        some (set_size b need h))
    else some h

-- The pointer for the caller, and, above the natural alignment, the pointer to the block before it.
unfoldable pub user_pointer : ℕ → ℕ → ℕ
user_pointer b align =
    if ltb heap_align align then align_up (b + header_size + 8) align else b + header_size

unfoldable pub hand_out : ℕ → ℕ → ℕ → Heap → ℕ × Heap
hand_out b asked align h =
    let h = set_magic b magic_alloc h in
    let h = set_canary b (canary_of magic_alloc) h in
    let h = set_next b 0 h in
    let ptr = user_pointer b align in
    let h = (if ltb heap_align align then record h { mem = write64 (ptr - 8) b h.mem } else h) in
    let h = set_bytes ptr 0xCD asked h in
    (ptr, record h { heap_used = (h.heap_used + size b h + header_size) % word })

unfoldable pub take_block : ℕ → Link → ℕ → ℕ → ℕ → Heap → Option (ℕ × Heap)
take_block fuel pp need asked align h =
    let b = deref pp h in
    split fuel b need (store pp (next b h) h) >>= λ h. some (hand_out b asked align h)

unfoldable pub need_of : ℕ → ℕ → ℕ
need_of asked align =
    let need =
      (if ltb heap_align align then (asked + align + 8) % word else align_up asked heap_align) in
    if ltb need 16 then 16 else need

-- `if (expand_heap(need) != 0) return NULL;`, and else `again`
unfoldable pub after_expand : (Heap → Option (ℕ × Heap)) → Status × Heap → Option (ℕ × Heap)
after_expand again (fail, h) = some (0, h)
after_expand again (ok, h) = again h

unfoldable pub after_search :
    ℕ → ℕ → ℕ → ℕ → Heap → (Heap → Option (ℕ × Heap)) → Search → Option (ℕ × Heap)
after_search fuel need asked align h again corrupt = some (0, h)
after_search fuel need asked align h again (found pp) = take_block fuel pp need asked align h
after_search fuel need asked align h again exhausted =
    expand_heap fuel need h >>= after_expand again

unfoldable pub alloc_loop : ℕ → ℕ → ℕ → ℕ → ℕ → Heap → Option (ℕ × Heap)
alloc_loop zero fuel need asked align h = none
alloc_loop (suc rounds) fuel need asked align h =
    search fuel need head h
    >>= after_search fuel need asked align h (λ h. alloc_loop rounds fuel need asked align h)

unfoldable pub kmalloc_aligned : ℕ → ℕ → ℕ → ℕ → Heap → Option (ℕ × Heap)
kmalloc_aligned rounds fuel asked align h =
    let align =
      (if not (is_power_of_two align) || ltb align heap_align then heap_align else align) in
    if not h.heap_ready || asked == 0
    then some (0, h)
    else alloc_loop rounds fuel (need_of asked align) asked align h

unfoldable pub kmalloc : ℕ → ℕ → ℕ → Heap → Option (ℕ × Heap)
kmalloc rounds fuel asked h = kmalloc_aligned rounds fuel asked heap_align h
