-- ===== src/Heap/Chain.antt =====
-- kernel/mm/heap.c: the free list as a list of addresses and sizes, and the walks along it.
use gnuwindows.Base.{
  ℕ, zero, suc, ◌+◌, ◌%◌, ◌<◌, ◌≡◌, refl, ◌∙◌, some, List, [], ◌∷◌, arith, leb, if◌then◌else◌,
  length, Memory, read32, read64,
}
use gnuwindows.Heap.Blocks.{
  Heap, Link, next_of, header_size, magic_free, canary_of, magic, size, canary, deref,
}
use gnuwindows.Heap.Alloc.{Search, found, exhausted, search, word}
use gnuwindows.Heap.Release.{sum_from, heap_free_bytes}

-- A free block: its address and the size of its payload.
abbrev pub Entry : Type 0
Entry = ℕ × ℕ

-- From `p` the free blocks of `l` are linked up to the pointer `q`, each with a sound header.
pub data Linked (m : Memory) : ℕ → List Entry → ℕ → Type 0 where
  end : {q : ℕ} → Linked m q [] q
  link :
      {p s n q : ℕ} {l : List Entry}
      → 0 < p
      → read32 m p ≡ magic_free
      → read32 m (p + 16) ≡ canary_of magic_free
      → read32 m (p + 4) ≡ s
      → read64 m (p + 8) ≡ n
      → Linked m n l q
      → Linked m p ((p, s) ∷ l) q

abbrev pub IsFreeList : Heap → List Entry → Type 0
IsFreeList h l = Linked h.mem h.free_list l 0

-- the bytes of the blocks of `l`, headers included
abbrev pub bytes : List Entry → ℕ
bytes [] = 0
bytes ((b, s) ∷ l) = (s + header_size + bytes l) % word

-- Where a first-fit search over `l` ends, whose first block `pp` points to.
abbrev pub first_fit : ℕ → Link → List Entry → Search
first_fit need pp [] = exhausted
first_fit need pp ((b, s) ∷ l) = if leb need s then found pp else first_fit need (next_of b) l

search_at :
    (fuel need : ℕ) (pp : Link) (h : Heap) (p : ℕ)
    → deref pp h ≡ p
    → 0 < p
    → magic p h ≡ magic_free
    → canary p h ≡ canary_of magic_free
    → search (suc fuel) need pp h
      ≡ (if leb need (size p h) then some (found pp) else search fuel need (next_of p) h)
unfolding search
search_at fuel need pp h p e pos m c = rw (e, m, c, search) (ground arith)

-- The search of `kmalloc_aligned` along a free list from `pp` on finds the first block of at least
-- `need` bytes, or the end of the list; it reports no damage.
pub search-first_fit :
    (fuel need : ℕ) (pp : Link) (h : Heap) {p : ℕ} {l : List Entry}
    → deref pp h ≡ p
    → Linked h.mem p l 0
    → length l < fuel
    → search fuel need pp h ≡ some (first_fit need pp l)
unfolding search deref
search-first_fit zero need pp h e c lt = absurd (omega arith)
search-first_fit (suc fuel) need pp h e end lt = rw (e, search) refl
search-first_fit (suc fuel) need pp h e (link {p} {s} {n} {l = l} pos m c es en r) lt =
    let rest = search-first_fit fuel need (next_of p) h en r (omega arith) in
    search_at fuel need pp h p e pos m c ∙ rw (rest, es) (ground arith)

sum_from-bytes :
    (fuel : ℕ) (h : Heap) {p : ℕ} {l : List Entry}
    → Linked h.mem p l 0
    → length l < fuel
    → sum_from fuel p h ≡ some (bytes l)
unfolding sum_from
sum_from-bytes zero h c lt = absurd (omega arith)
sum_from-bytes (suc fuel) h end lt = refl
sum_from-bytes (suc fuel) h (link {p} {s} {n} {l = l} pos m c es en r) lt =
    rw (en, es, sum_from-bytes fuel h r (omega arith)) (ground arith)

-- `heap_free_bytes` returns the sum of the blocks in the free list, headers included.
pub heap_free_bytes-bytes :
    (fuel : ℕ) (h : Heap) (l : List Entry)
    → IsFreeList h l
    → length l < fuel
    → heap_free_bytes fuel h ≡ some (bytes l)
unfolding heap_free_bytes
heap_free_bytes-bytes fuel h l c lt = sum_from-bytes fuel h c lt
