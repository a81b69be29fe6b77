-- ===== src/Heap/Place.antt =====
-- kernel/mm/heap.c: where the two walks of `insert_free` end.
use gnuwindows.Base.{
  ℕ, zero, suc, ◌+◌, ◌≤◌, ◌<◌, ◌≡◌, refl, some, List, [], ◌∷◌, ◌⊎◌, arith, length,
}
use gnuwindows.Heap.Blocks.{Heap, Link, next_of, header_size, deref}
use gnuwindows.Heap.Insert.{walk, find_prev}
use gnuwindows.Heap.Chain.{Entry, Linked, end, link}
use gnuwindows.Heap.Relink.{last_block}

-- Every block of `l` ends by `a`.
abbrev pub Below : ℕ → List Entry → Type 0
Below a [] = Unit {0}
Below a ((b, s) ∷ l) = (b + header_size + s ≤ a) × Below a l

-- the link at the end of `l`, whose first block `pp` points to
abbrev pub last_link : Link → List Entry → Link
last_link pp [] = pp
last_link pp ((b, s) ∷ l) = last_link (next_of b) l

pub last_link-last_block :
    (b : ℕ) (l : List Entry) → last_link (next_of b) l ≡ next_of (last_block b l)
last_link-last_block b [] = refl
last_link-last_block b ((c, t) ∷ l) = last_link-last_block c l

pub walk-last_link :
    (fuel block : ℕ) (pp : Link) (h : Heap) {p n : ℕ} {l : List Entry}
    → deref pp h ≡ p
    → Linked h.mem p l n
    → Below block l
    → (n ≡ 0) ⊎ (block ≤ n)
    → length l < fuel
    → walk fuel block pp h ≡ some (last_link pp l)
unfolding walk deref
walk-last_link zero block pp h e c b stop lt = absurd (omega arith)
walk-last_link (suc fuel) block pp h {n} e end b stop lt = rw (e, walk) (ground arith)
walk-last_link (suc fuel) block pp h e (link {p} pos mg cn es en r) (le, b) stop lt =
    rw (e, walk-last_link fuel block (next_of p) h en r b stop (omega arith), walk) (ground arith)

pub find_prev-last_block :
    (h : Heap) (block fuel d : ℕ) {p : ℕ} {l : List Entry}
    → Linked h.mem p l block
    → Below block l
    → 0 < length l
    → length l ≤ fuel
    → find_prev fuel block p h ≡ some (last_block d l)
unfolding find_prev
find_prev-last_block h block fuel d end b some' lt = absurd (omega arith)
find_prev-last_block h block zero d (link pos mg cn es en r) b some' lt = absurd (omega arith)
find_prev-last_block h block (suc fuel) d (link {p} pos mg cn es en end) b some' lt =
    rw en (ground arith)
find_prev-last_block h block (suc fuel) d
      (link {p} pos mg cn es en (link {p = n} {l = l} pos' mg' cn' es' en' r)) (le, (le', b)) some'
      lt =
    let rest =
      find_prev-last_block h block fuel p (link pos' mg' cn' es' en' r) (le', b) (omega arith)
        (omega arith) in
    rw (en, rest) (ground arith)

pub deref-last_link :
    (h : Heap) (pp : Link) {p n : ℕ} {l : List Entry}
    → deref pp h ≡ p
    → Linked h.mem p l n
    → deref (last_link pp l) h ≡ n
unfolding deref
deref-last_link h pp e end = e
deref-last_link h pp e (link {p} pos mg cn es en r) = deref-last_link h (next_of p) en r
