-- ===== src/Heap/Kfree.antt =====
-- kernel/mm/heap.c: `kfree` of a pointer that `kmalloc` returned.
use gnuwindows.Base.{
  ℕ, ◌+◌, ◌-◌, ◌%◌, ◌<◌, ◌≡◌, refl, ap, ◌∙◌, true, false, Bool, some, List, arith, if◌then◌else◌,
  ◌==◌, ◌||◌, not, leb, length,
}
use gnuwindows.Heap.Blocks.{Heap, header_size, size}
use gnuwindows.Heap.Alloc.{word}
use gnuwindows.Heap.Chain.{Entry, IsFreeList}
use gnuwindows.Heap.Release.{is_alloc, block_of, release, kfree}
use gnuwindows.Heap.Free.{placed, Gap}
use gnuwindows.Heap.Freed.{insert_free-placed}

back : (a : ℕ) → a + header_size < word → (a + header_size + word - header_size) % word ≡ a
back a w = omega arith

Gap-used :
    {h : Heap} {l1 : List Entry} {a s : ℕ} {l2 : List Entry} (u : ℕ)
    → Gap h l1 a s l2
    → Gap (record h { heap_used = u }) l1 a s l2
Gap-used u g = record {
  next = g.next;
  before = g.before;
  after = g.after;
  sorted = g.sorted;
  below = g.below;
  above = g.above;
  inside = g.inside;
  positive = g.positive;
  bounded = g.bounded;
  small_before = g.small_before;
  small_after = g.small_after;
}

block_of-is_alloc :
    (a : ℕ) (h : Heap)
    → a + header_size < word
    → is_alloc a h ≡ true
    → block_of (a + header_size) h ≡ some a
unfolding block_of
block_of-is_alloc a h w e = rw (back a w, e) refl

guard {ℓ} :
    {A : Type ℓ} (b c : Bool) (x y : A) → b ≡ false → c ≡ true → (if b || not c then x else y) ≡ y
guard b c x y e f = rw (e, f) refl

kfree-release :
    (fuel a ptr : ℕ) (h : Heap)
    → h.heap_ready ≡ true
    → 0 < ptr
    → block_of ptr h ≡ some a
    → kfree fuel ptr h ≡ release fuel (some a) h
unfolding kfree
kfree-release fuel a ptr h ready pos e =
    guard (ptr == 0) h.heap_ready (some h) (release fuel (block_of ptr h) h) (ground arith) ready
    ∙ ap (λ o. release fuel o h) e

-- `kfree` of the pointer to a block that is in use returns, and puts the block in the free list as
-- `insert_free` does.
pub kfree-placed :
    (h : Heap) (fuel a s : ℕ) (l1 l2 : List Entry)
    → h.heap_ready ≡ true
    → is_alloc a h ≡ true
    → size a h ≡ s
    → Gap h l1 a s l2
    → a + header_size < word
    → length l1 < fuel
    → (h' : Heap) × (kfree fuel (a + header_size) h ≡ some h') × IsFreeList h' (placed l1 a s l2)
unfolding release
kfree-placed h fuel a s l1 l2 ready e es g w lt =
    let total = size a h + header_size in
    let used = (if leb total h.heap_used then h.heap_used - total else 0) in
    let r =
      insert_free-placed (record h { heap_used = used }) fuel a s l1 l2 es (Gap-used used g) lt in
    (
      r.0,
      kfree-release fuel a (a + header_size) h ready (omega arith) (block_of-is_alloc a h w e)
          ∙ r.1,
      r.2,
    )
