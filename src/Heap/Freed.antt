-- ===== src/Heap/Freed.antt =====
-- kernel/mm/heap.c: what `insert_free` makes of the free list.
use gnuwindows.Base.{
  ℕ, ◌+◌, ◌^◌, ◌≤◌, ◌<◌, ◌≡◌, refl, ap, ◌∙◌, true, false, Bool-cases, some, List, [], ◌∷◌, ◌++◌,
  ◌⊎◌, inl, inr, arith, ◌==◌, length, Memory, read32, read64, read32-write32,
}
use gnuwindows.Heap.Blocks.{Heap, head, header_size, size, set_size, set_next, deref, store}
use gnuwindows.Heap.Insert.{mark_free, link_block, insert_free}
use gnuwindows.Heap.Chain.{Entry, Linked, link, IsFreeList}
use gnuwindows.Heap.Relink.{
  read32-Within, read64-Within, Linked-Within, Linked-append, Sorted-Away, write32-Within,
}
use gnuwindows.Heap.Place.{last_link, deref-last_link}
use gnuwindows.Heap.Store.{FreeBlock, FreeBlock-link, mark_free-FreeBlock}
use gnuwindows.Heap.Join.{attach, Linked-nil, Linked-bounded, join_prev-attach}
use gnuwindows.Heap.Free.{
  placed, Gap, Sorted-weaken, Away-part, mark_free-Gap, walk-Gap, set_next-Spliced, link_block_join,
  link_block_merge, merge_next_at,
}

link_block-attach :
    (h : Heap) (fuel a s : ℕ) (l1 l2 : List Entry) (g : Gap h l1 a s l2)
    → FreeBlock h.mem a s
    → length l1 ≤ fuel
    → (g.next ≡ 0) ⊎ ((a + header_size + s == g.next) ≡ false)
    → (h' : Heap) × (link_block fuel a (last_link head l1) h ≡ some h')
      × IsFreeList h' (attach l1 a s l2)
unfolding deref
link_block-attach h fuel a s l1 l2 g block lt stop =
    let above = Sorted-weaken (a + header_size + s) (a + header_size) l2 (omega arith) g.above in
    let r =
      join_prev-attach (store (last_link head l1) a (set_next a g.next h)) fuel a s l1 l2
        (set_next-Spliced h a s g.next g.next l1 l2 g.bounded (Linked-bounded g.after g.inside)
          g.before g.sorted g.below block g.after above)
        g.positive g.sorted g.below above g.inside g.small_before lt in
    (
      r.0,
      link_block_join fuel a g.next (last_link head l1) h (deref-last_link h head refl g.before)
            (rw block.size stop)
          ∙ r.1,
      r.2,
    )

-- the first block of a chain
record Opened (m : Memory) (p c u : ℕ) (l : List Entry) (q : ℕ) : Type 0 where
  start : p ≡ c
  positive : 0 < c
  size : read32 m (c + 4) ≡ u
  next : ℕ
  to_next : read64 m (c + 8) ≡ next
  rest : Linked m next l q

Linked-Opened :
    {m : Memory} {p c u q : ℕ} {l : List Entry} → Linked m p ((c, u) ∷ l) q → Opened m p c u l q
Linked-Opened (link {n} pos mg cn es en r) = record {
  start = refl;
  positive = pos;
  size = es;
  next = n;
  to_next = en;
  rest = r;
}

FreeBlock-set_size :
    (h : Heap) (a s z : ℕ) → z < 2 ^ 32 → FreeBlock h.mem a s → FreeBlock (set_size a z h).mem a z
FreeBlock-set_size h a s z small block =
    let f = write32-Within (a + 4) z h.mem in
    record {
      magic = read32-Within f a (inl (omega arith)) ∙ block.magic;
      canary = read32-Within f (a + 16) (inr (omega arith)) ∙ block.canary;
      size = read32-write32 (a + 4) z h.mem ∙ omega arith;
    }

link_block_absorb :
    (h : Heap) (fuel a s c u : ℕ) (l1 l2 : List Entry)
    → Gap h l1 a s ((c, u) ∷ l2)
    → FreeBlock h.mem a s
    → (a + header_size + s == c) ≡ true
    → (h' : Heap) × (link_block fuel a (last_link head l1) h ≡ some h')
      × IsFreeList h' (l1 ++ (a, s + header_size + u) ∷ l2)
unfolding deref
link_block_absorb h fuel a s c u l1 l2 g block e =
    let o = Linked-Opened g.after in
    let z = s + header_size + u in
    let pp = last_link head l1 in
    let h1 = set_size a z h in
    let f = write32-Within (a + 4) z h.mem in
    let ec : a + header_size + s ≡ c = ground arith in
    let before = Linked-Within f g.before (Away-part a 4 4 l1 g.below) in
    let above = Sorted-weaken (c + header_size + u) (a + header_size) l2 (omega arith) g.above.1 in
    let d = deref-last_link h head refl g.before ∙ o.start in
    let p =
      set_next-Spliced h1 a z g.next o.next l1 l2 g.bounded (Linked-bounded o.rest g.inside.1)
        before g.sorted g.below (FreeBlock-set_size h a s z g.small_after block)
        (Linked-Within f o.rest (Sorted-Away (a + 4) 4 (a + header_size) l2 (omega arith) above))
        above in
    (
      store pp a (set_next a o.next h1),
      link_block_merge fuel a c pp h d o.positive (rw block.size e)
          ∙ ap some (
              merge_next_at a c z o.next pp h d (rw (block.size, o.size) refl)
                (deref-last_link h1 head refl before ∙ o.start)
                (read64-Within f (c + 8) (inr (omega arith)) ∙ o.to_next)),
      Linked-append p.before (FreeBlock-link g.positive p.block p.to_next p.after),
    )

link_block-placed :
    (h : Heap) (fuel a s : ℕ) (l1 l2 : List Entry)
    → Gap h l1 a s l2
    → FreeBlock h.mem a s
    → length l1 ≤ fuel
    → (h' : Heap) × (link_block fuel a (last_link head l1) h ≡ some h')
      × IsFreeList h' (placed l1 a s l2)
link_block-placed h fuel a s l1 [] g block lt =
    link_block-attach h fuel a s l1 [] g block lt (inl (Linked-nil g.after))
link_block-placed h fuel a s l1 ((c, u) ∷ l2) g block lt =
    elim (Bool-cases (a + header_size + s == c)) [
      | inl e ↦ rw e (link_block_absorb h fuel a s c u l1 l2 g block e)
      | inr e ↦ rw e (
          link_block-attach h fuel a s l1 ((c, u) ∷ l2) g block lt
            (inr (rw (Linked-Opened g.after).start e)))
    ]

-- `insert_free` of a block in a gap of the free list, whose header has its size, returns, and the
-- free list is then the old one with the block in its place, as one block with the block after it
-- where it ends there, or else with the one before it where that one ends at the block.
pub insert_free-placed :
    (h : Heap) (fuel a s : ℕ) (l1 l2 : List Entry)
    → size a h ≡ s
    → Gap h l1 a s l2
    → length l1 < fuel
    → (h' : Heap) × (insert_free fuel a h ≡ some h') × IsFreeList h' (placed l1 a s l2)
unfolding insert_free
insert_free-placed h fuel a s l1 l2 e g lt =
    let g' = mark_free-Gap h l1 a s l2 e g in
    let r =
      link_block-placed (mark_free a h) fuel a s l1 l2 g' (mark_free-FreeBlock a s h e).0
        (omega arith) in
    (r.0, rw (walk-Gap (mark_free a h) fuel a s l1 l2 g' lt) r.1, r.2)
