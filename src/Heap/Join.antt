-- ===== src/Heap/Join.antt =====
-- kernel/mm/heap.c: the last step of `insert_free`, which may join the block with the one before it.
use gnuwindows.Base.{
  ℕ, ◌+◌, ◌^◌, ◌≤◌, ◌<◌, ◌≡◌, refl, sym, ap, ◌∙◌, true, false, Bool-cases, some, List, [], ◌∷◌,
  ◌++◌, inl, inr, arith, ◌==◌, if◌then◌else◌, length, Memory, write32,
}
use mathlib.Core.Path.{subst}
use gnuwindows.Heap.Blocks.{Heap, header_size, size, next, set_size, set_next}
use gnuwindows.Heap.Insert.{find_prev, merge_prev, join_prev}
use gnuwindows.Heap.Alloc.{word}
use gnuwindows.Heap.Chain.{Entry, Linked, end, link, IsFreeList}
use gnuwindows.Heap.Relink.{
  Sorted, read64-Within, Linked-Within, Linked-append, Sorted-Away, last_block, write64-Within,
  write32-Within,
}
use gnuwindows.Heap.Place.{Below, find_prev-last_block}
use gnuwindows.Heap.Store.{FreeBlock-link}
use gnuwindows.Heap.Splice.{
  Spliced, last_block-Below, last_size, resize, size-last_size, Linked-resize,
}

-- The block at `a` between `l1` and `l2`, as one with the last block of `l1` where that one ends.
abbrev pub attach : List Entry → ℕ → ℕ → List Entry → List Entry
attach [] a s l2 = (a, s) ∷ l2
attach ((b, t) ∷ l) a s l2 =
    if last_block b l + header_size + last_size t l == a
    then resize (last_size t l + header_size + s) ((b, t) ∷ l) ++ l2
    else ((b, t) ∷ l) ++ (a, s) ∷ l2

join_prev_head : (fuel a : ℕ) (h : Heap) → h.free_list ≡ a → join_prev fuel a h ≡ some h
unfolding join_prev
join_prev_head fuel a h e = ground arith

join_prev_walk :
    (fuel a prev : ℕ) (h : Heap)
    → h.free_list < a
    → find_prev fuel a h.free_list h ≡ some prev
    → join_prev fuel a h ≡ some (merge_prev prev a h)
unfolding join_prev
join_prev_walk fuel a prev h lt e = rw e (ground arith)

merge_prev_apart :
    (prev a : ℕ) (h : Heap)
    → (prev + header_size + size prev h == a) ≡ false
    → merge_prev prev a h ≡ h
unfolding merge_prev
merge_prev_apart prev a h e = ground arith

merge_prev_join :
    (prev a z n : ℕ) (h : Heap)
    → 0 < prev
    → (prev + header_size + size prev h == a) ≡ true
    → size prev h + header_size + size a h ≡ z
    → next a h ≡ n
    → merge_prev prev a h ≡ set_next prev n (set_size prev z h)
unfolding merge_prev
merge_prev_join prev a z n h pos e ez en =
    let keep =
      read64-Within (write32-Within (prev + 4) z h.mem) (a + 8) (inr (ground arith)) ∙ en in
    let nz : (prev == 0) ≡ false = ground arith in rw (nz, e, ez, keep) refl

pub Linked-nil : {m : Memory} {p q : ℕ} → Linked m p [] q → p ≡ q
Linked-nil end = refl

pub Linked-cons :
    {m : Memory} {p q b t : ℕ} {l : List Entry} → Linked m p ((b, t) ∷ l) q → (p ≡ b) × (0 < b)
Linked-cons (link pos mg c es en r) = (refl, pos)

last_block-pos :
    (m : Memory) (d : ℕ) {p q : ℕ} {l : List Entry}
    → Linked m p l q
    → 0 < length l
    → 0 < last_block d l
last_block-pos m d end lt = absurd (omega arith)
last_block-pos m d (link pos mg c es en end) lt = pos
last_block-pos m d (link {p} pos mg c es en (link pos' mg' c' es' en' r)) lt =
    last_block-pos m p (link pos' mg' c' es' en' r) (omega arith)

pub Linked-bounded :
    {m : Memory} {p : ℕ} {l : List Entry} → Linked m p l 0 → Below word l → p < word
Linked-bounded end b = omega arith
Linked-bounded (link pos mg c es en r) (le, b) = omega arith

pub join_prev-attach :
    (h : Heap) (fuel a s : ℕ) (l1 l2 : List Entry)
    → Spliced h l1 a s l2
    → 0 < a
    → Sorted 0 l1
    → Below a l1
    → Sorted (a + header_size) l2
    → Below word l2
    → last_size 0 l1 + header_size + s < 2 ^ 32
    → length l1 ≤ fuel
    → (h' : Heap) × (join_prev fuel a h ≡ some h') × IsFreeList h' (attach l1 a s l2)
join_prev-attach h fuel a s [] l2 p pos sorted below above inside small lt = (
  h,
  join_prev_head fuel a h (Linked-nil p.before),
  subst (λ q. Linked h.mem q ((a, s) ∷ l2) 0) (sym (Linked-nil p.before))
      (FreeBlock-link pos p.block p.to_next p.after),
)
join_prev-attach h fuel a s ((b, t) ∷ l) l2 p pos sorted below above inside small lt =
    let last = last_block b l in
    let le : last + header_size ≤ a = last_block-Below a b ((b, t) ∷ l) below (omega arith) in
    let es : size last h ≡ last_size t l = size-last_size h.mem b t p.before (omega arith) in
    let z = last_size t l + header_size + s in
    let walk =
      join_prev_walk fuel a last h (omega (arith, (Linked-cons p.before).0, below.0))
        (find_prev-last_block h a fuel b p.before below (omega arith) lt) in
    elim (Bool-cases (last + header_size + last_size t l == a)) [
      | inr e ↦ (
        h,
        walk ∙ ap some (merge_prev_apart last a h (rw es e)),
        rw e (Linked-append p.before (FreeBlock-link pos p.block p.to_next p.after)),
      )
      | inl e ↦ (
        set_next last p.next (set_size last z h),
        walk
            ∙ ap some (
                merge_prev_join last a z p.next h (last_block-pos h.mem b p.before (omega arith))
                  (rw es e) (omega (arith, es, p.block.size)) p.to_next),
        rw e (
            Linked-append
              (Linked-resize h.mem 0 b z p.next small (Linked-bounded p.after inside) p.before
                sorted (omega arith))
              (Linked-Within (write64-Within (last + 8) p.next (write32 (last + 4) z h.mem))
                (Linked-Within (write32-Within (last + 4) z h.mem) p.after
                  (Sorted-Away (last + 4) 4 (a + header_size) l2 (omega arith) above))
                (Sorted-Away (last + 8) 8 (a + header_size) l2 (omega arith) above))),
      )
    ]
