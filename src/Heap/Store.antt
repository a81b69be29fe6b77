-- ===== src/Heap/Store.antt =====
-- kernel/mm/heap.c: the header that `insert_free` writes, and the link that it turns to the block.
use gnuwindows.Base.{
  ℕ, ◌+◌, ◌≤◌, ◌<◌, ◌≡◌, ◌∙◌, List, ◌∷◌, inl, inr, arith, Memory, Apart, read32, read64, write32,
  write64, read32-write32, fill, fill_frame,
}
use gnuwindows.Heap.Blocks.{Heap, header_size, magic_free, canary_of, size}
use gnuwindows.Heap.Insert.{mark_free}
use gnuwindows.Heap.Chain.{Entry, Linked, link}
use gnuwindows.Heap.Relink.{Within, read32-Within, write64-Within, write32-Within}

pub Within-trans :
    {w n : ℕ} {m m' m'' : Memory} → Within w n m m' → Within w n m' m'' → Within w n m m''
Within-trans f g = record { same = λ x o. g.same x o ∙ f.same x o }

pub Within-widen :
    {w n : ℕ} {m m' : Memory} (w' n' : ℕ)
    → Within w n m m'
    → w' ≤ w
    → w + n ≤ w' + n'
    → Within w' n' m m'
Within-widen w' n' f lo hi = record {
  same = λ x o. f.same x (elim o [ inl h ↦ inl (omega arith) | inr h ↦ inr (omega arith) ]);
}

fill-Within : (n d c : ℕ) (m : Memory) → Within d n m (fill n d c m)
fill-Within n d c m = record { same = fill_frame n d c m }

-- The header of a free block of `s` bytes.
pub record FreeBlock (m : Memory) (a s : ℕ) : Type 0 where
  pub magic : read32 m a ≡ magic_free
  pub canary : read32 m (a + 16) ≡ canary_of magic_free
  pub size : read32 m (a + 4) ≡ s

pub FreeBlock-Within :
    {w n : ℕ} {m m' : Memory} {a s : ℕ}
    → Within w n m m'
    → Apart a header_size w n
    → FreeBlock m a s
    → FreeBlock m' a s
FreeBlock-Within {a} f (inl h) b = record {
  magic = read32-Within f a (inl (omega arith)) ∙ b.magic;
  canary = read32-Within f (a + 16) (inl (omega arith)) ∙ b.canary;
  size = read32-Within f (a + 4) (inl (omega arith)) ∙ b.size;
}
FreeBlock-Within {a} f (inr h) b = record {
  magic = read32-Within f a (inr (omega arith)) ∙ b.magic;
  canary = read32-Within f (a + 16) (inr (omega arith)) ∙ b.canary;
  size = read32-Within f (a + 4) (inr (omega arith)) ∙ b.size;
}

pub FreeBlock-link :
    {m : Memory} {a s n q : ℕ} {l : List Entry}
    → 0 < a
    → FreeBlock m a s
    → read64 m (a + 8) ≡ n
    → Linked m n l q
    → Linked m a ((a, s) ∷ l) q
FreeBlock-link pos b e r = link pos b.magic b.canary b.size e r

-- the memory before the poison
marked : ℕ → Memory → Memory
marked a m = write64 (a + 8) 0 (write32 (a + 16) (canary_of magic_free) (write32 a magic_free m))

marked-Within : (a : ℕ) (m : Memory) → Within a header_size m (marked a m)
unfolding marked
marked-Within a m =
    let m1 = write32 a magic_free m in
    let m2 = write32 (a + 16) (canary_of magic_free) m1 in
    Within-trans
      (Within-widen a header_size (write32-Within a magic_free m) (omega arith) (omega arith))
      (Within-trans
        (Within-widen a header_size (write32-Within (a + 16) (canary_of magic_free) m1)
          (omega arith) (omega arith))
        (Within-widen a header_size (write64-Within (a + 8) 0 m2) (omega arith) (omega arith)))

marked-FreeBlock : (a s : ℕ) (m : Memory) → read32 m (a + 4) ≡ s → FreeBlock (marked a m) a s
unfolding marked
marked-FreeBlock a s m e =
    let m1 = write32 a magic_free m in
    let m2 = write32 (a + 16) (canary_of magic_free) m1 in
    let f1 = write32-Within a magic_free m in
    let f2 = write32-Within (a + 16) (canary_of magic_free) m1 in
    let f3 = write64-Within (a + 8) 0 m2 in
    record {
      magic =
          read32-Within f3 a (inl (omega arith))
          ∙ read32-Within f2 a (inl (omega arith))
          ∙ read32-write32 a magic_free m
          ∙ omega arith;
      canary =
          read32-Within f3 (a + 16) (inr (omega arith))
          ∙ read32-write32 (a + 16) (canary_of magic_free) m1
          ∙ omega arith;
      size =
          read32-Within f3 (a + 4) (inl (omega arith))
          ∙ read32-Within f2 (a + 4) (inl (omega arith))
          ∙ read32-Within f1 (a + 4) (inr (omega arith))
          ∙ e;
    }

pub mark_free-FreeBlock :
    (a s : ℕ) (h : Heap)
    → size a h ≡ s
    → FreeBlock (mark_free a h).mem a s × Within a (header_size + s) h.mem (mark_free a h).mem
unfolding mark_free marked
mark_free-FreeBlock a s h e =
    let b = marked-FreeBlock a s h.mem e in
    let f = fill-Within s (a + header_size) 0xDC (marked a h.mem) in
    rw b.size (
      FreeBlock-Within f (inl (omega arith)) b,
      Within-trans
          (Within-widen a (header_size + s) (marked-Within a h.mem) (omega arith) (omega arith))
          (Within-widen a (header_size + s) f (omega arith) (omega arith)),
    )
