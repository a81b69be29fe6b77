-- ===== src/Heap/Relink.antt =====
-- kernel/mm/heap.c: what writes to memory do to the chain of free blocks.
use gnuwindows.Base.{
  ℕ, ◌+◌, ◌≤◌, ◌<◌, ◌≡◌, refl, ◌∙◌, List, [], ◌∷◌, ◌++◌, ◌⊎◌, inl, inr, arith, Memory, Outside,
  Apart, read32, read64, write32, write64, read32_same, read64_same, write32_frame, write64_frame,
  read64-write64, length,
}
use gnuwindows.Heap.Blocks.{header_size}
use gnuwindows.Heap.Chain.{Entry, Linked, end, link}
use gnuwindows.Heap.Alloc.{word}

-- The blocks of `l` lie in increasing order from `lo` on, and do not overlap.
abbrev pub Sorted : ℕ → List Entry → Type 0
Sorted lo [] = Unit {0}
Sorted lo ((b, s) ∷ l) = (lo ≤ b) × Sorted (b + header_size + s) l

-- The `n` bytes from `w` on meet no header of `l`.
abbrev pub Away : ℕ → ℕ → List Entry → Type 0
Away w n [] = Unit {0}
Away w n ((b, s) ∷ l) = Apart b header_size w n × Away w n l

-- Only the `n` bytes from `w` on differ.
pub record Within (w n : ℕ) (m m' : Memory) : Type 0 where
  pub same : (x : ℕ) → Outside w n x → m' x ≡ m x

outside : (b w n k x : ℕ) → Apart b k w n → b ≤ x → x < b + k → Outside w n x
outside b w n k x (inl h) lo hi = inl (omega arith)
outside b w n k x (inr h) lo hi = inr (omega arith)

pub read32-Within :
    {w n : ℕ} {m m' : Memory} → Within w n m m' → (b : ℕ) → Apart b 4 w n → read32 m' b ≡ read32 m b
read32-Within {w} {n} {m} {m'} f b a =
    read32_same m m' b λ x lo hi. f.same x (outside b w n 4 x a lo hi)

pub read64-Within :
    {w n : ℕ} {m m' : Memory} → Within w n m m' → (b : ℕ) → Apart b 8 w n → read64 m' b ≡ read64 m b
read64-Within {w} {n} {m} {m'} f b a =
    read64_same m m' b λ x lo hi. f.same x (outside b w n 8 x a lo hi)

-- a part of a range that is apart
Apart-part : (b k w n c j : ℕ) → Apart b k w n → b ≤ c → c + j ≤ b + k → Apart c j w n
Apart-part b k w n c j (inl h) lo hi = inl (omega arith)
Apart-part b k w n c j (inr h) lo hi = inr (omega arith)

pub Linked-Within :
    {m m' : Memory} {p q w n : ℕ} {l : List Entry}
    → Within w n m m'
    → Linked m p l q
    → Away w n l
    → Linked m' p l q
Linked-Within f end a = end
Linked-Within {w} {n} f (link {p} pos mg c es en r) (a, rest) =
    link pos
      (read32-Within f p (Apart-part p header_size w n p 4 a (omega arith) (omega arith)) ∙ mg)
      (read32-Within f (p + 16)
          (Apart-part p header_size w n (p + 16) 4 a (omega arith) (omega arith))
        ∙ c)
      (read32-Within f (p + 4)
          (Apart-part p header_size w n (p + 4) 4 a (omega arith) (omega arith))
        ∙ es)
      (read64-Within f (p + 8)
          (Apart-part p header_size w n (p + 8) 8 a (omega arith) (omega arith))
        ∙ en)
      (Linked-Within f r rest)

pub Linked-append :
    {m : Memory} {p q r : ℕ} {l k : List Entry}
    → Linked m p l q
    → Linked m q k r
    → Linked m p (l ++ k) r
Linked-append end k = k
Linked-append (link pos mg c es en l) k = link pos mg c es en (Linked-append l k)

-- A range below `lo` meets no block from `lo` on, and neither does one above `hi` meet those that
-- end by it.
pub Sorted-Away : (w n lo : ℕ) (l : List Entry) → w + n ≤ lo → Sorted lo l → Away w n l
Sorted-Away w n lo [] h s = tt
Sorted-Away w n lo ((b, t) ∷ l) h (le, s) =
    (inr (omega arith), Sorted-Away w n (b + header_size + t) l (omega arith) s)

-- the address of the last block of `(b, s) ∷ l`
abbrev pub last_block : ℕ → List Entry → ℕ
last_block b [] = b
last_block b ((c, t) ∷ l) = last_block c l

pub last_block-ge :
    (b : ℕ) (lo : ℕ) (l : List Entry) → Sorted lo l → (last_block b l ≡ b) ⊎ (lo ≤ last_block b l)
last_block-ge b lo [] s = inl refl
last_block-ge b lo ((c, t) ∷ l) (le, s) = elim (last_block-ge c (c + header_size + t) l s) [
  | inl e ↦ inr (omega arith)
  | inr h ↦ inr (omega arith)
]

pub write64-Within : (a v : ℕ) (m : Memory) → Within a 8 m (write64 a v m)
write64-Within a v m = record { same = write64_frame a v m }

pub write32-Within : (a v : ℕ) (m : Memory) → Within a 4 m (write32 a v m)
write32-Within a v m = record { same = write32_frame a v m }

-- The last block of a chain that is not empty is turned to `v`.
pub Linked-relink :
    (m : Memory) (lo d v : ℕ) {p q : ℕ} {l : List Entry}
    → v < word
    → Linked m p l q
    → Sorted lo l
    → 0 < length l
    → Linked (write64 (last_block d l + 8) v m) p l v
Linked-relink m lo d v w end sorted some' = absurd (omega arith)
Linked-relink m lo d v w (link {p} pos mg c es en end) sorted some' =
    let f = write64-Within (p + 8) v m in
    link pos (read32-Within f p (inl (omega arith)) ∙ mg)
      (read32-Within f (p + 16) (inr (omega arith)) ∙ c)
      (read32-Within f (p + 4) (inl (omega arith)) ∙ es) (read64-write64 (p + 8) v m ∙ omega arith)
      end
Linked-relink m lo d v w
      (link {p} {s} pos mg c es en (link {p = n} {s = t} {l = l} pos' mg' c' es' en' r))
      (_, (le, sorted)) some' =
    let f = write64-Within (last_block n l + 8) v m in
    let far : n ≤ last_block n l = elim (last_block-ge n (n + header_size + t) l sorted) [
      | inl e ↦ omega arith
      | inr h ↦ omega arith
    ] in
    link pos (read32-Within f p (inl (omega arith)) ∙ mg)
      (read32-Within f (p + 16) (inl (omega arith)) ∙ c)
      (read32-Within f (p + 4) (inl (omega arith)) ∙ es)
      (read64-Within f (p + 8) (inl (omega arith)) ∙ en)
      (Linked-relink m (p + header_size + s) p v w (link pos' mg' c' es' en' r) (le, sorted)
        (omega arith))
