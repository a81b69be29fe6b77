-- ===== src/Pmm/Free.antt =====
-- kernel/mm/pmm.c: `pmm_free_page` and `pmm_free_pages`, and what is left of an allocation that is
-- given back.
use gnuwindows.Base.{
  ℕ, zero, suc, ◌+◌, ◌*◌, ◌/◌, ◌%◌, ◌≤◌, ◌<◌, ◌≡◌, refl, true, false, arith, ◌==◌, if◌then◌else◌,
  not, ◌&&◌, Bool-cases, inl, inr, ◌∙◌, ap, ◌≢◌,
}
use native.Mathlib.Nat.{add_assoc}
use gnuwindows.Pmm.Bitmap.{bitmap_test, test-clear}
use gnuwindows.Pmm.Pages.{
  Pmm, page_size, word, drop_page, free_page, free_pages, free_pages_loop, alloc_pages,
}
use gnuwindows.Pmm.Count.{
  IsValid, is_freeable, used-drop_page, drop_page-IsValid, free_page-of_freeable,
  free_page-of_not_freeable, freeable-lt, freeable-taken,
}
use gnuwindows.Pmm.Run.{run_page, in_run}
use gnuwindows.Pmm.Alloc.{Found, alloc_pages-first_fit}

-- What `pmm_free_page` at `phys` has done when it returns the state `t`.
pub record FreedAt (phys : ℕ) (s t : Pmm) : Type 0 where
  pub pages :
      (q : ℕ)
      → bitmap_test t.bitmap q
        ≡ (not (is_freeable phys s && (q == phys / page_size)) && bitmap_test s.bitmap q)
  pub used : t.used + (if is_freeable phys s then 1 else 0) ≡ s.used
  pub highest : t.highest_page ≡ s.highest_page
  pub ready : t.ready ≡ s.ready
  pub valid : IsValid t

module _ {s : Pmm} (phys : ℕ) (v : IsValid s) where
  drop_page-FreedAt : is_freeable phys s ≡ true → FreedAt phys s (drop_page (phys / page_size) s)
  unfolding drop_page
  drop_page-FreedAt e =
      let lt = freeable-lt phys s e in
      let old = freeable-taken phys s e in
      record {
        pages = λ q. ground (arith, test-clear s.bitmap (phys / page_size) q v.bytes, v.small);
        used = ground (arith, used-drop_page (phys / page_size) v lt old);
        highest = refl;
        ready = refl;
        valid = drop_page-IsValid (phys / page_size) v lt old;
      }

  -- `pmm_free_page` frees the page at an aligned address that it manages and that is in use, and
  -- counts it. No other page changes, and at any other address nothing does.
  pub free_page-FreedAt : FreedAt phys s (free_page phys s)
  free_page-FreedAt = elim (Bool-cases (is_freeable phys s)) [
    | inl e ↦ rw (free_page-of_freeable phys s e) (drop_page-FreedAt e)
    | inr e ↦ rw (free_page-of_not_freeable phys s e) (record {
      pages = λ q. rw e;
      used = rw e (omega arith);
      highest = refl;
      ready = refl;
      valid = v;
    })
  ]

  not_freeable_again : is_freeable phys (free_page phys s) ≡ false
  not_freeable_again = ground (
    arith,
    free_page-FreedAt.pages (phys / page_size),
    free_page-FreedAt.ready,
    free_page-FreedAt.highest,
  )

  -- A second free of the same page changes nothing.
  pub free_page_twice : free_page phys (free_page phys s) ≡ free_page phys s
  free_page_twice = free_page-of_not_freeable phys (free_page phys s) not_freeable_again

-- The pages of a run are free again, and no other page changes.
pub record Freed (a n : ℕ) (s t : Pmm) : Type 0 where
  pub pages : (q : ℕ) → bitmap_test t.bitmap q ≡ (not (in_run a n q) && bitmap_test s.bitmap q)
  pub used : t.used + n ≡ s.used
  pub highest : t.highest_page ≡ s.highest_page
  pub ready : t.ready ≡ s.ready
  pub valid : IsValid t

-- `n` pages from `a` on, all in use and below `highest_page`
pub record InUse (a n : ℕ) (s : Pmm) : Type 0 where
  pub pages : (q : ℕ) → a ≤ q → q < a + n → bitmap_test s.bitmap q ≡ true
  pub inside : a + n ≤ s.highest_page
  pub up : s.ready ≡ true

free_page-run :
    (a n phys : ℕ) {s : Pmm}
    → IsValid s
    → InUse a (suc n) s
    → phys ≡ a * page_size
    → Freed a 1 s (free_page phys s) × InUse (a + 1) n (free_page phys s)
free_page-run a n phys {s} v u e =
    let f = free_page-FreedAt phys v in
    let at : phys / page_size ≡ a = omega arith in
    let can : is_freeable phys s ≡ true = ground (arith, u.pages a, u.inside, u.up) in
    (
      record {
        pages = λ q. ground (arith, f.pages q);
        used = ground (arith, f.used);
        highest = f.highest;
        ready = f.ready;
        valid = f.valid;
      },
      record {
        pages = λ q lo hi. ground (arith, f.pages q, u.pages q);
        inside = omega (arith, f.highest, u.inside);
        up = f.ready ∙ u.up;
      },
    )

free_pages_loop-Freed :
    (n a i phys : ℕ) {s : Pmm}
    → IsValid s
    → InUse (a + i) n s
    → phys ≡ a * page_size
    → Freed (a + i) n s (free_pages_loop n i phys s)
unfolding free_pages_loop
free_pages_loop-Freed zero a i phys v u e = record {
  pages = λ q. ground arith;
  used = omega arith;
  highest = refl;
  ready = refl;
  valid = v;
}
free_pages_loop-Freed (suc n) a i phys {s} v u e =
    let here : (phys + i * page_size) % word ≡ (a + i) * page_size =
      omega (arith, v.small, u.inside) in
    let (f, w) = free_page-run (a + i) n ((phys + i * page_size) % word) v u here in
    let next : InUse (a + (i + 1)) n (free_page ((phys + i * page_size) % word) s) =
      rw (← add_assoc) w in
    let g = free_pages_loop-Freed n a (i + 1) phys f.valid next e in
    record {
      pages = λ q. ground (arith, f.pages q, g.pages q);
      used = omega (arith, f.used, g.used);
      highest = g.highest ∙ f.highest;
      ready = g.ready ∙ f.ready;
      valid = g.valid;
    }

-- `pmm_free_pages` at the address of a run that is in use frees exactly that run.
pub free_pages-Freed :
    (a n : ℕ) {s : Pmm} → IsValid s → InUse a n s → Freed a n s (free_pages (a * page_size) n s)
unfolding free_pages
free_pages-Freed a n {s} v u =
    let start : a + 0 ≡ a = omega arith in
    rw start at (free_pages_loop-Freed n a 0 (a * page_size) v (rw start u) refl)

-- `t` has the pages and the counter of `s`.
pub record GivenBack (s t : Pmm) : Type 0 where
  pub pages : (q : ℕ) → bitmap_test t.bitmap q ≡ bitmap_test s.bitmap q
  pub used : t.used ≡ s.used
  pub valid : IsValid t

InUse-of_Found :
    {n : ℕ} {s : Pmm} {a : ℕ} {r : ℕ × Pmm} → Found n s a r → s.ready ≡ true → InUse a n r.1
InUse-of_Found {n} {a} f up = record {
  pages = λ q lo hi. ground (arith, f.taken.pages q);
  inside = omega (arith, f.taken.highest, f.inside);
  up = f.taken.ready ∙ up;
}

Found-GivenBack :
    {n : ℕ} {s : Pmm} {a : ℕ} {r : ℕ × Pmm}
    → Found n s a r
    → s.ready ≡ true
    → GivenBack s (free_pages r.0 n r.1)
Found-GivenBack {n} {s} {a} {r} f up = rw f.address (
    let g = free_pages-Freed a n f.valid (InUse-of_Found f up) in
    record {
      pages = λ q. ground (arith, g.pages q, f.taken.pages q, run_page s.bitmap a n q f.free);
      used = omega (arith, g.used, f.taken.used);
      valid = g.valid;
    })

-- Giving back what `pmm_alloc_pages` has just handed out, at the address that it returned, brings
-- back every page and the counter, unless that address is 0, which says that the request failed.
pub free_pages-alloc_pages :
    (count : ℕ) {s : Pmm}
    → IsValid s
    → s.ready ≡ true
    → 0 < count
    → (alloc_pages count s).0 ≢ 0
    → GivenBack s (free_pages (alloc_pages count s).0 count (alloc_pages count s).1)
free_pages-alloc_pages count v up pos ne = elim (alloc_pages-first_fit v count up pos) [
  | inl (a, found) ↦ Found-GivenBack found up
  | inr full ↦ absurd (ne (ap (λ r. r.0) full.same))
]
