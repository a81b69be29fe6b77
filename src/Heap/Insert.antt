-- ===== src/Heap/Insert.antt =====
-- kernel/mm/heap.c: `insert_free`, which keeps the free list sorted and joins neighbours. A walk
-- along the list runs on fuel, and `none` is a walk that is out of fuel.
use gnuwindows.Base.{
  ℕ, zero, suc, ◌+◌, Option, none, some, ◌>>=◌, ◌==◌, ltb, if◌then◌else◌, ◌&&◌, ◌||◌, not,
}
use gnuwindows.Heap.Blocks.{
  Heap, Link, head, next_of, header_size, magic_free, canary_of, size, next, set_magic, set_size,
  set_next, set_canary, set_bytes, deref, store,
}

-- `while (*pp && *pp < block) pp = &(*pp)->next`
unfoldable pub walk : ℕ → ℕ → Link → Heap → Option Link
walk zero block pp h = none
walk (suc fuel) block pp h =
    let rest = walk fuel block (next_of (deref pp h)) h in
    if deref pp h == 0 || not (ltb (deref pp h) block) then some pp else rest

-- `while (prev && prev->next != block) prev = prev->next`
unfoldable pub find_prev : ℕ → ℕ → ℕ → Heap → Option ℕ
find_prev zero block prev h = none
find_prev (suc fuel) block prev h =
    let rest = find_prev fuel block (next prev h) h in
    if prev == 0 || next prev h == block then some prev else rest

-- the header of a free block, and its poison
unfoldable pub mark_free : ℕ → Heap → Heap
mark_free block h =
    let h = set_magic block magic_free h in
    let h = set_canary block (canary_of magic_free) h in
    let h = set_next block 0 h in set_bytes (block + header_size) 0xDC (size block h) h

unfoldable pub merge_next : ℕ → Link → Heap → Heap
merge_next block pp h =
    let h = set_size block (size block h + header_size + size (deref pp h) h) h in
    let h = set_next block (next (deref pp h) h) h in store pp block h

unfoldable pub merge_prev : ℕ → ℕ → Heap → Heap
merge_prev prev block h =
    if not (prev == 0) && prev + header_size + size prev h == block
    then (let h = set_size prev (size prev h + header_size + size block h) h in
        set_next prev (next block h) h)
    else h

-- The new block is in the list; it may end a free block before it.
unfoldable pub join_prev : ℕ → ℕ → Heap → Option Heap
join_prev fuel block h =
    if h.free_list == block
    then some h
    else find_prev fuel block h.free_list h >>= λ prev. some (merge_prev prev block h)

-- `pp` is the place of the new block.
unfoldable pub link_block : ℕ → ℕ → Link → Heap → Option Heap
link_block fuel block pp h =
    if not (deref pp h == 0) && block + header_size + size block h == deref pp h
    then some (merge_next block pp h)
    else join_prev fuel block (store pp block (set_next block (deref pp h) h))

unfoldable pub insert_free : ℕ → ℕ → Heap → Option Heap
insert_free fuel block h =
    let h = mark_free block h in walk fuel block head h >>= λ pp. link_block fuel block pp h
