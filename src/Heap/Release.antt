-- ===== src/Heap/Release.antt =====
-- kernel/mm/heap.c: `kfree` and the counters.
use gnuwindows.Base.{
  ℕ, zero, suc, ◌+◌, ◌-◌, ◌^◌, ◌%◌, Bool, Option, none, some, ◌>>=◌, ◌==◌, leb, if◌then◌else◌, ◌&&◌,
  ◌||◌, not, read64,
}
use gnuwindows.Heap.Blocks.{Heap, header_size, magic_alloc, canary_of, magic, size, next, canary}
use gnuwindows.Heap.Insert.{insert_free}

abbrev word : ℕ
word = 2 ^ 64

-- The header at `b` is that of a block that is in use.
unfoldable pub is_alloc : ℕ → Heap → Bool
is_alloc b h = magic b h == magic_alloc && canary b h == canary_of magic_alloc

-- The block of the pointer `ptr`, or none: a double free, or no block at all.
unfoldable pub block_of : ℕ → Heap → Option ℕ
block_of ptr h =
    let b = (ptr + word - header_size) % word in
    let candidate = read64 h.mem ((ptr + word - 8) % word) in
    if is_alloc b h
    then some b
    else if not (candidate == 0) && is_alloc candidate h
    then some candidate
    else none

unfoldable pub release : ℕ → Option ℕ → Heap → Option Heap
release fuel none h = some h
release fuel (some b) h =
    let total = size b h + header_size in
    let used = (if leb total h.heap_used then h.heap_used - total else 0) in
    insert_free fuel b (record h { heap_used = used })

unfoldable pub kfree : ℕ → ℕ → Heap → Option Heap
kfree fuel ptr h = if ptr == 0 || not h.heap_ready then some h else release fuel (block_of ptr h) h

abbrev pub heap_used_bytes : Heap → ℕ
heap_used_bytes h = h.heap_used

abbrev pub heap_total_bytes : Heap → ℕ
heap_total_bytes h = h.heap_total

unfoldable pub sum_from : ℕ → ℕ → Heap → Option ℕ
sum_from zero b h = none
sum_from (suc fuel) b h =
    let rest = sum_from fuel (next b h) h in
    if b == 0 then some 0 else rest >>= λ n. some ((size b h + header_size + n) % word)

unfoldable pub heap_free_bytes : ℕ → Heap → Option ℕ
heap_free_bytes fuel h = sum_from fuel h.free_list h
