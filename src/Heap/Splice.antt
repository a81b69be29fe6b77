-- ===== src/Heap/Splice.antt =====
-- kernel/mm/heap.c: the block in the free list, and joined with the block before it.
use gnuwindows.Base.{
  ℕ, ◌+◌, ◌^◌, ◌≤◌, ◌<◌, ◌≡◌, sym, ◌∙◌, List, [], ◌∷◌, inl, inr, arith, length, Memory, read32,
  read64, write32, write64, read64-write64, read32-write32,
}
use mathlib.Core.Path.{subst}
use gnuwindows.Heap.Blocks.{Heap, head, header_size, next, store}
use gnuwindows.Heap.Alloc.{word}
use gnuwindows.Heap.Chain.{Entry, Linked, end, link}
use gnuwindows.Heap.Relink.{
  Sorted, read32-Within, read64-Within, Linked-Within, Sorted-Away, last_block, last_block-ge,
  write64-Within, write32-Within, Linked-relink,
}
use gnuwindows.Heap.Place.{Below, last_link, last_link-last_block}
use gnuwindows.Heap.Store.{FreeBlock, FreeBlock-Within}

-- The free list of `h` is `l1`, the block at `a` and `l2`.
pub record Spliced (h : Heap) (l1 : List Entry) (a s : ℕ) (l2 : List Entry) : Type 0 where
  pub next : ℕ
  pub before : Linked h.mem h.free_list l1 a
  pub block : FreeBlock h.mem a s
  pub to_next : read64 h.mem (a + 8) ≡ next
  pub after : Linked h.mem next l2 0

pub last_block-Below :
    (a d : ℕ) (l : List Entry) → Below a l → 0 < length l → last_block d l + header_size ≤ a
last_block-Below a d [] b lt = absurd (omega arith)
last_block-Below a d ((c, t) ∷ []) b lt = omega (arith, b.0)
last_block-Below a d ((c, t) ∷ e ∷ l) (le, b) lt = last_block-Below a c (e ∷ l) b (omega arith)

-- The link at the end of `l1` is turned to the block at `a`.
pub store-Spliced :
    (h : Heap) (a s n next : ℕ) (l1 l2 : List Entry)
    → a < word
    → Linked h.mem h.free_list l1 n
    → Sorted 0 l1
    → Below a l1
    → FreeBlock h.mem a s
    → read64 h.mem (a + 8) ≡ next
    → Linked h.mem next l2 0
    → Sorted (a + header_size) l2
    → Spliced (store (last_link head l1) a h) l1 a s l2
unfolding store
store-Spliced h a s n next [] l2 w c sorted below block e after above = record {
  next = next;
  before = end;
  block = block;
  to_next = e;
  after = after;
}
store-Spliced h a s n next ((b, t) ∷ l) l2 w c sorted below block e after above =
    let last = last_block b l in
    let le : last + header_size ≤ a = last_block-Below a b ((b, t) ∷ l) below (omega arith) in
    let f = write64-Within (last + 8) a h.mem in
    subst (λ pp. Spliced (store pp a h) ((b, t) ∷ l) a s l2) (sym (last_link-last_block b l))
      record {
        next = next;
        before = Linked-relink h.mem 0 b a w c sorted (omega arith);
        block = FreeBlock-Within f (inr (omega arith)) block;
        to_next = read64-Within f (a + 8) (inr (omega arith)) ∙ e;
        after =
            Linked-Within f after
              (Sorted-Away (last + 8) 8 (a + header_size) l2 (omega arith) above);
      }

-- the size of the last block
abbrev pub last_size : ℕ → List Entry → ℕ
last_size d [] = d
last_size d ((b, s) ∷ l) = last_size s l

-- The last block has `z` bytes.
abbrev pub resize : ℕ → List Entry → List Entry
resize z [] = []
resize z ((b, s) ∷ []) = (b, z) ∷ []
resize z ((b, s) ∷ c ∷ l) = (b, s) ∷ resize z (c ∷ l)

pub size-last_size :
    (m : Memory) (d e : ℕ) {p q : ℕ} {l : List Entry}
    → Linked m p l q
    → 0 < length l
    → read32 m (last_block d l + 4) ≡ last_size e l
size-last_size m d e end lt = absurd (omega arith)
size-last_size m d e (link pos mg c es en end) lt = es
size-last_size m d e (link {p} {s} pos mg c es en (link pos' mg' c' es' en' r)) lt =
    size-last_size m p s (link pos' mg' c' es' en' r) (omega arith)

-- The last block is given `z` bytes and the link `v`.
pub Linked-resize :
    (m : Memory) (lo d z v : ℕ) {p q : ℕ} {l : List Entry}
    → z < 2 ^ 32
    → v < word
    → Linked m p l q
    → Sorted lo l
    → 0 < length l
    → Linked (write64 (last_block d l + 8) v (write32 (last_block d l + 4) z m)) p (resize z l) v
Linked-resize m lo d z v small w end sorted lt = absurd (omega arith)
Linked-resize m lo d z v small w (link {p} pos mg c es en end) sorted lt =
    let f = write32-Within (p + 4) z m in
    let g = write64-Within (p + 8) v (write32 (p + 4) z m) in
    link pos (read32-Within g p (inl (omega arith)) ∙ read32-Within f p (inl (omega arith)) ∙ mg)
      (read32-Within g (p + 16) (inr (omega arith))
        ∙ read32-Within f (p + 16) (inr (omega arith))
        ∙ c)
      (read32-Within g (p + 4) (inl (omega arith)) ∙ read32-write32 (p + 4) z m ∙ omega arith)
      (read64-write64 (p + 8) v (write32 (p + 4) z m) ∙ omega arith) end
Linked-resize m lo d z v small w
      (link {p} {s} pos mg c es en (link {p = n} {s = t} {l = l} pos' mg' c' es' en' r))
      (_, (le, sorted)) lt =
    let last = last_block n l in
    let far : n ≤ last = elim (last_block-ge n (n + header_size + t) l sorted) [
      | inl e ↦ omega arith
      | inr h ↦ omega arith
    ] in
    let f = write32-Within (last + 4) z m in
    let g = write64-Within (last + 8) v (write32 (last + 4) z m) in
    link pos (read32-Within g p (inl (omega arith)) ∙ read32-Within f p (inl (omega arith)) ∙ mg)
      (read32-Within g (p + 16) (inl (omega arith))
        ∙ read32-Within f (p + 16) (inl (omega arith))
        ∙ c)
      (read32-Within g (p + 4) (inl (omega arith))
        ∙ read32-Within f (p + 4) (inl (omega arith))
        ∙ es)
      (read64-Within g (p + 8) (inl (omega arith))
        ∙ read64-Within f (p + 8) (inl (omega arith))
        ∙ en)
      (Linked-resize m (p + header_size + s) p z v small w (link pos' mg' c' es' en' r) (le, sorted)
        (omega arith))
