-- ===== src/Heap/Free.antt =====
-- kernel/mm/heap.c: `insert_free` on a sorted free list.
use gnuwindows.Base.{
  ℕ, ◌+◌, ◌^◌, ◌≤◌, ◌<◌, ◌≡◌, refl, ◌∙◌, true, false, some, List, [], ◌∷◌, ◌++◌, ◌⊎◌, inl, inr,
  arith, ◌==◌, if◌then◌else◌, length, Memory, read64-write64,
}
use gnuwindows.Heap.Blocks.{
  Heap, Link, head, header_size, size, next, set_size, set_next, deref, store,
}
use gnuwindows.Heap.Insert.{walk, mark_free, merge_next, join_prev, link_block}
use gnuwindows.Heap.Alloc.{word}
use gnuwindows.Heap.Chain.{Entry, Linked, end, link}
use gnuwindows.Heap.Relink.{Sorted, Away, read32-Within, Linked-Within, Sorted-Away, write64-Within}
use gnuwindows.Heap.Place.{Below, last_link, walk-last_link}
use gnuwindows.Heap.Store.{FreeBlock, mark_free-FreeBlock}
use gnuwindows.Heap.Splice.{Spliced, store-Spliced, last_size}
use gnuwindows.Heap.Join.{attach}

-- The free list `l1 ++ l2` with the block of `s` bytes at `a` between: joined with the block after
-- it, or else perhaps with the one before it.
abbrev pub placed : List Entry → ℕ → ℕ → List Entry → List Entry
placed l1 a s [] = attach l1 a s []
placed l1 a s ((c, u) ∷ l2) =
    if a + header_size + s == c
    then l1 ++ (a, s + header_size + u) ∷ l2
    else attach l1 a s ((c, u) ∷ l2)

-- the size of the first block
abbrev pub first_size : List Entry → ℕ
first_size [] = 0
first_size ((c, u) ∷ l) = u

-- The free list of `h` is `l1`, which ends by `a`, and `l2`, which begins at the end of the block of
-- `s` bytes at `a` or after; neither neighbour makes a block of 4 GiB with it.
pub record Gap (h : Heap) (l1 : List Entry) (a s : ℕ) (l2 : List Entry) : Type 0 where
  pub next : ℕ
  pub before : Linked h.mem h.free_list l1 next
  pub after : Linked h.mem next l2 0
  pub sorted : Sorted 0 l1
  pub below : Below a l1
  pub above : Sorted (a + header_size + s) l2
  pub inside : Below word l2
  pub positive : 0 < a
  pub bounded : a < word
  pub small_before : last_size 0 l1 + header_size + s < 2 ^ 32
  pub small_after : s + header_size + first_size l2 < 2 ^ 32

pub Below-Away : (w n : ℕ) (l : List Entry) → Below w l → Away w n l
Below-Away w n [] b = tt
Below-Away w n ((b, s) ∷ l) (le, r) = (inl (omega arith), Below-Away w n l r)

pub Away-part : (a x n : ℕ) (l : List Entry) → Below a l → Away (a + x) n l
Away-part a x n [] b = tt
Away-part a x n ((b, s) ∷ l) (le, r) = (inl (omega arith), Away-part a x n l r)

pub Sorted-weaken : (lo lo' : ℕ) (l : List Entry) → lo' ≤ lo → Sorted lo l → Sorted lo' l
Sorted-weaken lo lo' [] h s = tt
Sorted-weaken lo lo' ((b, t) ∷ l) h (le, s) = (omega arith, s)

next-above :
    {m : Memory} {n a : ℕ} {l : List Entry} → Linked m n l 0 → Sorted a l → (n ≡ 0) ⊎ (a ≤ n)
next-above end s = inl refl
next-above (link pos mg c es en r) (le, s) = inr le

-- The header and the poison are written.
pub mark_free-Gap :
    (h : Heap) (l1 : List Entry) (a s : ℕ) (l2 : List Entry)
    → size a h ≡ s
    → Gap h l1 a s l2
    → Gap (mark_free a h) l1 a s l2
unfolding mark_free
mark_free-Gap h l1 a s l2 e g =
    let f = (mark_free-FreeBlock a s h e).1 in
    record {
      next = g.next;
      sorted = g.sorted;
      below = g.below;
      above = g.above;
      inside = g.inside;
      positive = g.positive;
      bounded = g.bounded;
      small_before = g.small_before;
      small_after = g.small_after;
      before = Linked-Within f g.before (Below-Away a (header_size + s) l1 g.below);
      after =
          Linked-Within f g.after
            (Sorted-Away a (header_size + s) (a + header_size + s) l2 (omega arith) g.above);
    }

pub walk-Gap :
    (h : Heap) (fuel a s : ℕ) (l1 l2 : List Entry)
    → Gap h l1 a s l2
    → length l1 < fuel
    → walk fuel a head h ≡ some (last_link head l1)
unfolding deref
walk-Gap h fuel a s l1 l2 g lt =
    walk-last_link fuel a head h refl g.before g.below
      (next-above g.after (Sorted-weaken (a + header_size + s) a l2 (omega arith) g.above)) lt

-- The block gets the link `v`, and the link at the end of `l1` is turned to the block.
pub set_next-Spliced :
    (h : Heap) (a s q v : ℕ) (l1 l2 : List Entry)
    → a < word
    → v < word
    → Linked h.mem h.free_list l1 q
    → Sorted 0 l1
    → Below a l1
    → FreeBlock h.mem a s
    → Linked h.mem v l2 0
    → Sorted (a + header_size) l2
    → Spliced (store (last_link head l1) a (set_next a v h)) l1 a s l2
set_next-Spliced h a s q v l1 l2 w wv c sorted below block after above =
    let f = write64-Within (a + 8) v h.mem in
    store-Spliced (set_next a v h) a s q v l1 l2 w (Linked-Within f c (Away-part a 8 8 l1 below))
      sorted below
      (record {
        magic = read32-Within f a (inl (omega arith)) ∙ block.magic;
        canary = read32-Within f (a + 16) (inr (omega arith)) ∙ block.canary;
        size = read32-Within f (a + 4) (inl (omega arith)) ∙ block.size;
      })
      (read64-write64 (a + 8) v h.mem ∙ omega arith)
      (Linked-Within f after (Sorted-Away (a + 8) 8 (a + header_size) l2 (omega arith) above)) above

pub link_block_join :
    (fuel a n : ℕ) (pp : Link) (h : Heap)
    → deref pp h ≡ n
    → (n ≡ 0) ⊎ ((a + header_size + size a h == n) ≡ false)
    → link_block fuel a pp h ≡ join_prev fuel a (store pp a (set_next a n h))
unfolding link_block
link_block_join fuel a n pp h d (inl e) = rw (d, e) refl
link_block_join fuel a n pp h d (inr e) = rw (d, e) (ground arith)

pub merge_next_at :
    (a n z v : ℕ) (pp : Link) (h : Heap)
    → deref pp h ≡ n
    → size a h + header_size + size n h ≡ z
    → deref pp (set_size a z h) ≡ n
    → next n (set_size a z h) ≡ v
    → merge_next a pp h ≡ store pp a (set_next a v (set_size a z h))
unfolding merge_next
merge_next_at a n z v pp h d ez d' en = rw (d, ez, d', en) refl

pub link_block_merge :
    (fuel a n : ℕ) (pp : Link) (h : Heap)
    → deref pp h ≡ n
    → 0 < n
    → (a + header_size + size a h == n) ≡ true
    → link_block fuel a pp h ≡ some (merge_next a pp h)
unfolding link_block
link_block_merge fuel a n pp h d pos e = rw (d, e) (ground arith)
