-- ===== src/Pmm/Alloc.antt =====
-- kernel/mm/pmm.c: `pmm_alloc_page` and `pmm_alloc_pages` take the first run that is long enough,
-- and fail only where there is none.
use gnuwindows.Base.{
  ℕ, zero, suc, ◌+◌, ◌*◌, ◌%◌, ◌≤◌, ◌<◌, ◌≡◌, ◌≢◌, refl, true, false, arith, ltb, ◌==◌,
  if◌then◌else◌, Bool-cases, ◌⊎◌, inl, inr,
}
use native.Mathlib.Nat.{add-zero}
use native.Mathlib.Numerals.{add-one}
use gnuwindows.Pmm.Bitmap.{bitmap_test}
use gnuwindows.Pmm.Pages.{
  Pmm, page_size, word, take_run, alloc_page_loop, alloc_page, alloc_pages_loop, alloc_pages,
}
use gnuwindows.Pmm.Count.{IsValid, free-lt, take_page-IsValid}
use gnuwindows.Pmm.Run.{is_free_run, run_hit, run_extend, Taken, take_page-Taken, take_run-Taken}

-- The outcome of a request for `n` pages: the address of the first free run of `n` pages below
-- `highest_page`, which is then taken.
pub record Found (n : ℕ) (s : Pmm) (a : ℕ) (r : ℕ × Pmm) : Type 0 where
  pub address : r.0 ≡ a * page_size
  pub inside : a + n ≤ s.highest_page
  pub free : is_free_run s.bitmap a n ≡ true
  pub first : (b : ℕ) → b < a → is_free_run s.bitmap b n ≡ false
  pub taken : Taken a n s r.1
  pub valid : IsValid r.1

-- There is no such run, and nothing changes.
pub record Full (n : ℕ) (s : Pmm) (r : ℕ × Pmm) : Type 0 where
  pub none_free : (b : ℕ) → b + n ≤ s.highest_page → is_free_run s.bitmap b n ≡ false
  pub same : r ≡ (0, s)

abbrev pub Outcome : ℕ → Pmm → ℕ × Pmm → Type 0
Outcome n s r = ((a : ℕ) × Found n s a r) ⊎ Full n s r

module _ {s : Pmm} (v : IsValid s) where
  alloc_page_loop-Outcome :
      (n p : ℕ)
      → p + n ≡ s.highest_page
      → ((b : ℕ) → b < p → is_free_run s.bitmap b 1 ≡ false)
      → Outcome 1 s (alloc_page_loop n p s)
  unfolding alloc_page_loop is_free_run
  alloc_page_loop-Outcome zero p e none_yet =
      inr (record { none_free = λ b h. none_yet b (omega arith); same = refl })
  alloc_page_loop-Outcome (suc n) p e none_yet = elim (Bool-cases (bitmap_test s.bitmap p)) [
    | inl old ↦
        rw (old, alloc_page_loop)
          (alloc_page_loop-Outcome n (p + 1) (omega arith) λ b h. elim (Bool-cases (b == p)) [
            | inl eq ↦ run_hit s.bitmap p b 1 old (ground arith) (ground arith)
            | inr ne ↦ none_yet b (ground arith)
          ])
    | inr new ↦
        rw (new, alloc_page_loop)
          (inl (
            p,
            record {
              address = omega (arith, free-lt p v new, v.small);
              inside = omega (arith, free-lt p v new);
              free = run_extend s.bitmap p 0 refl (rw add-zero new);
              first = none_yet;
              taken = take_page-Taken p v new;
              valid = take_page-IsValid p v new;
            },
          ))
  ]

  Found-run :
      (count a : ℕ)
      → a + count ≤ s.highest_page
      → is_free_run s.bitmap a count ≡ true
      → ((b : ℕ) → b < a → is_free_run s.bitmap b count ≡ false)
      → Found count s a (a * page_size % word, take_run count a s)
  Found-run count a h free none_yet =
      let (t, w) = take_run-Taken count a v free in
      record {
        address = omega (arith, v.small);
        inside = h;
        free = free;
        first = none_yet;
        taken = t;
        valid = w;
      }

  -- The loop at page `p`: the `run` pages before it are free, `start` is where they begin, and no
  -- run that is long enough starts before them.
  alloc_pages_loop-Outcome :
      (count n p run start a : ℕ)
      → p + n ≡ s.highest_page
      → a + run ≡ p
      → run < count
      → (run ≢ 0 → start ≡ a)
      → is_free_run s.bitmap a run ≡ true
      → ((b : ℕ) → b < a → is_free_run s.bitmap b count ≡ false)
      → Outcome count s (alloc_pages_loop count n p run start s)
  unfolding alloc_pages_loop is_free_run
  alloc_pages_loop-Outcome count zero p run start a e at short here free none_yet =
      inr (record { none_free = λ b h. none_yet b (omega arith); same = refl })
  alloc_pages_loop-Outcome count (suc n) p run start a e at short here free none_yet =
      elim (Bool-cases (bitmap_test s.bitmap p)) [
        | inl old ↦
            rw (old, alloc_pages_loop)
              (alloc_pages_loop-Outcome count n (p + 1) 0 start (p + 1) (omega arith) (omega arith)
                (omega arith) (λ h. absurd (h refl)) refl
                λ b h. elim (Bool-cases (ltb b a)) [
                  | inl before ↦ none_yet b (ground arith)
                  | inr within ↦ run_hit s.bitmap p b count old (ground arith) (ground arith)
                ])
        | inr new ↦
            let longer : is_free_run s.bitmap a (run + 1) ≡ true =
              rw add-one (run_extend s.bitmap a run free (rw at new)) in
            let from : (if run == 0 then p else start) ≡ a = ground (arith, here) in
            elim (Bool-cases (run + 1 == count)) [
              | inl done ↦
                  let count_eq : run + 1 ≡ count = ground arith in
                  rw (new, alloc_pages_loop, done, from)
                    (inl (a, Found-run count a (omega arith) (rw count_eq at longer) none_yet))
              | inr more ↦
                  rw (new, alloc_pages_loop, more, from)
                    (alloc_pages_loop-Outcome count n (p + 1) (run + 1) a a (omega arith)
                      (omega arith) (ground arith) (λ _. refl) longer none_yet)
            ]
      ]

  -- On a running memory manager `pmm_alloc_pages` takes the first run of `count` free pages and
  -- returns its address, or there is none and it changes nothing and returns 0.
  pub alloc_pages-first_fit :
      (count : ℕ) → s.ready ≡ true → 0 < count → Outcome count s (alloc_pages count s)
  unfolding alloc_pages alloc_page is_free_run
  alloc_pages-first_fit count up pos =
      let some_pages : (count == 0) ≡ false = ground arith in
      elim (Bool-cases (count == 1)) [
        | inl one ↦
            let e : count ≡ 1 = ground arith in
            simp (up, some_pages, one, e)
              (alloc_page_loop-Outcome s.highest_page 0 (omega arith) λ b h. absurd (omega arith))
        | inr more ↦
            simp (up, some_pages, more)
              (alloc_pages_loop-Outcome count s.highest_page 0 0 0 0 (omega arith) (omega arith) pos
                (λ h. absurd (h refl)) refl λ b h. absurd (omega arith))
      ]

  -- So does `pmm_alloc_page`, for one page.
  pub alloc_page-first_fit : s.ready ≡ true → Outcome 1 s (alloc_page s)
  unfolding alloc_page
  alloc_page-first_fit up =
      simp up (alloc_page_loop-Outcome s.highest_page 0 (omega arith) λ b h. absurd (omega arith))

-- Before `pmm_init` has run, and for no pages, the allocator changes nothing and returns 0.
pub alloc_pages_refused :
    (count : ℕ) (s : Pmm) → (s.ready ≡ false) ⊎ (count ≡ 0) → alloc_pages count s ≡ (0, s)
unfolding alloc_pages
alloc_pages_refused count s h = ground arith

Outcome-IsValid : {n : ℕ} {s : Pmm} {r : ℕ × Pmm} → IsValid s → Outcome n s r → IsValid r.1
Outcome-IsValid v (inl (a, found)) = found.valid
Outcome-IsValid v (inr full) = rw full.same v

-- `pmm_alloc_pages` keeps the counter and the bitmap in agreement, whatever it is asked for.
pub alloc_pages-IsValid : {s : Pmm} (count : ℕ) → IsValid s → IsValid (alloc_pages count s).1
alloc_pages-IsValid {s} count v = elim (Bool-cases s.ready) [
  | inl up ↦ elim (Bool-cases (count == 0)) [
    | inl no_pages ↦ rw (alloc_pages_refused count s (inr (ground arith))) v
    | inr some_pages ↦ Outcome-IsValid v (alloc_pages-first_fit v count up (ground arith))
  ]
  | inr down ↦ rw (alloc_pages_refused count s (inl down)) v
]
