-- ===== src/Heap/Blocks.antt =====
-- kernel/mm/heap.c: the header of a block in memory, 24 bytes long, the static variables, and the
-- pointers to a link that the walks along the free list keep.
use gnuwindows.Base.{ℕ, ◌+◌, ◌-◌, Bool, Memory, read32, read64, write32, write64, fill}
use gnuwindows.Pmm.Pages.{Pmm}

abbrev pub header_size : ℕ
header_size = 24

abbrev pub magic_alloc : ℕ
magic_alloc = 0xA110C000

abbrev pub magic_free : ℕ
magic_free = 0xF4EE0000

-- `~magic` in 32 bits
abbrev pub canary_of : ℕ → ℕ
canary_of magic = 0xFFFFFFFF - magic

-- `mem` is all memory but the bitmap of the page allocator, which is in `pmm`.
pub record Heap : Type 0 where
  pub mem : Memory
  pub free_list : ℕ
  pub heap_total : ℕ
  pub heap_used : ℕ
  pub heap_ready : Bool
  pub pmm : Pmm

abbrev pub magic : ℕ → Heap → ℕ
magic b h = read32 h.mem b

abbrev pub size : ℕ → Heap → ℕ
size b h = read32 h.mem (b + 4)

abbrev pub next : ℕ → Heap → ℕ
next b h = read64 h.mem (b + 8)

abbrev pub canary : ℕ → Heap → ℕ
canary b h = read32 h.mem (b + 16)

abbrev pub set_magic : ℕ → ℕ → Heap → Heap
set_magic b v h = record h { mem = write32 b v h.mem }

abbrev pub set_size : ℕ → ℕ → Heap → Heap
set_size b v h = record h { mem = write32 (b + 4) v h.mem }

abbrev pub set_next : ℕ → ℕ → Heap → Heap
set_next b v h = record h { mem = write64 (b + 8) v h.mem }

abbrev pub set_canary : ℕ → ℕ → Heap → Heap
set_canary b v h = record h { mem = write32 (b + 16) v h.mem }

-- `memset_local(at, c, n)`
abbrev pub set_bytes : ℕ → ℕ → ℕ → Heap → Heap
set_bytes at c n h = record h { mem = fill n at c h.mem }

-- `heap_block_t **pp`: the address of `free_list`, or of a block's `next`
pub data Link : Type 0 where
  head : Link
  next_of : ℕ → Link

unfoldable pub deref : Link → Heap → ℕ
deref head h = h.free_list
deref (next_of b) h = next b h

unfoldable pub store : Link → ℕ → Heap → Heap
store head p h = record h { free_list = p }
store (next_of b) p h = set_next b p h
