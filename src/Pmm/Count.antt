-- ===== src/Pmm/Count.antt =====
-- kernel/mm/pmm.c: what keeps `pmm_used` right. The number of used pages below `highest_page` is
-- counted afresh, as the recount loop of `pmm_init` does, and compared with the counter.
use gnuwindows.Base.{
  ℕ, zero, suc, ◌+◌, ◌/◌, ◌%◌, ◌≤◌, ◌<◌, ◌≡◌, Bool, true, false, arith, ltb, ◌==◌, if◌then◌else◌,
  ◌&&◌, Bool-cases, inl, inr,
}
use gnuwindows.Pmm.Bitmap.{
  Bitmap, IsBytes, max_pages, bitmap_set, bitmap_clear, bitmap_test, bitmap_set-IsBytes,
  bitmap_clear-IsBytes, test-set, test-clear,
}
use gnuwindows.Pmm.Pages.{
  Pmm, get_free_pages, get_total_pages, page_size, take_page, mark_page, mark_pages, mark_used,
  drop_page, free_page,
}

-- the used pages below `n`
unfoldable pub used_below : Bitmap → ℕ → ℕ
used_below m zero = 0
used_below m (suc n) = used_below m n + (if bitmap_test m n then 1 else 0)

pub used_below-le : (m : Bitmap) (n : ℕ) → used_below m n ≤ n
unfolding used_below
used_below-le m zero = omega arith
used_below-le m (suc n) = ground (arith, used_below-le m n)

pub used_below-set :
    (m : Bitmap) (p n : ℕ)
    → IsBytes m
    → bitmap_test m p ≡ false
    → used_below (bitmap_set m p) n ≡ used_below m n + (if ltb p n then 1 else 0)
unfolding used_below
used_below-set m p zero b h = ground arith
used_below-set m p (suc n) b h = ground (arith, used_below-set m p n b h, test-set m p n b)

pub used_below-clear :
    (m : Bitmap) (p n : ℕ)
    → IsBytes m
    → bitmap_test m p ≡ true
    → p < max_pages
    → used_below (bitmap_clear m p) n + (if ltb p n then 1 else 0) ≡ used_below m n
unfolding used_below
used_below-clear m p zero b h lt = ground arith
used_below-clear m p (suc n) b h lt =
    ground (arith, used_below-clear m p n b h lt, test-clear m p n b)

-- What holds between calls: the counter agrees with the bitmap, and no page at or above
-- `highest_page` is free.
pub record IsValid (s : Pmm) : Type 0 where
  pub bytes : IsBytes s.bitmap
  pub small : s.highest_page ≤ max_pages
  pub counted : s.used ≡ used_below s.bitmap s.highest_page
  pub above : (p : ℕ) → s.highest_page ≤ p → bitmap_test s.bitmap p ≡ true

-- A free page lies below `highest_page`.
pub free-lt : {s : Pmm} (p : ℕ) → IsValid s → bitmap_test s.bitmap p ≡ false → p < s.highest_page
free-lt {s} p v h = ground (arith, v.above p)

module _ {s : Pmm} (p : ℕ) (v : IsValid s) (free : bitmap_test s.bitmap p ≡ false) where
  -- The counter does not wrap when a free page is taken.
  pub used-take_page : (take_page p s).used ≡ s.used + 1
  unfolding take_page
  used-take_page = omega (
    arith,
    v.counted,
    free-lt p v free,
    v.small,
    used_below-set s.bitmap p s.highest_page v.bytes free,
    used_below-le (bitmap_set s.bitmap p) s.highest_page,
  )

  pub take_page-IsValid : IsValid (take_page p s)
  unfolding take_page
  take_page-IsValid = record {
    bytes = bitmap_set-IsBytes s.bitmap p v.bytes;
    small = v.small;
    counted = ground (
      arith,
      used-take_page,
      v.counted,
      free-lt p v free,
      used_below-set s.bitmap p s.highest_page v.bytes free,
    );
    above = λ q h. ground (arith, test-set s.bitmap p q v.bytes, v.above q);
  }

pub mark_page-IsValid : {s : Pmm} (p : ℕ) → IsValid s → IsValid (mark_page p s)
unfolding mark_page
mark_page-IsValid {s} p v = elim (Bool-cases (bitmap_test s.bitmap p)) [
  | inl old ↦ rw old v
  | inr new ↦ rw new (take_page-IsValid p v new)
]

pub mark_pages-IsValid : (n : ℕ) {s : Pmm} (p : ℕ) → IsValid s → IsValid (mark_pages n p s)
unfolding mark_pages
mark_pages-IsValid zero p v = v
mark_pages-IsValid (suc n) p v = mark_pages-IsValid n (p + 1) (mark_page-IsValid p v)

-- `pmm_mark_used` keeps the counter and the bitmap in agreement.
pub mark_used-IsValid : {s : Pmm} (phys size : ℕ) → IsValid s → IsValid (mark_used phys size s)
unfolding mark_used
mark_used-IsValid {s} phys size v = elim (Bool-cases (size == 0)) [
  | inl e ↦ rw e v
  | inr e ↦ rw e (mark_pages-IsValid _ _ v)
]

module _ {s : Pmm} (p : ℕ) (v : IsValid s) (lt : p < s.highest_page)
    (taken : bitmap_test s.bitmap p ≡ true) where
  -- Giving back a used page lowers the counter by one: it is not 0.
  pub used-drop_page : (drop_page p s).used + 1 ≡ s.used
  unfolding drop_page
  used-drop_page =
      ground (arith, v.counted, v.small, used_below-clear s.bitmap p s.highest_page v.bytes taken)

  pub drop_page-IsValid : IsValid (drop_page p s)
  unfolding drop_page
  drop_page-IsValid = record {
    bytes = bitmap_clear-IsBytes s.bitmap p v.bytes;
    small = v.small;
    counted = ground (
      arith,
      used-drop_page,
      v.counted,
      v.small,
      used_below-clear s.bitmap p s.highest_page v.bytes taken,
    );
    above = λ q h. ground (arith, test-clear s.bitmap p q v.bytes, v.above q);
  }

-- What `pmm_free_page` asks for before it frees a page.
abbrev pub is_freeable : ℕ → Pmm → Bool
is_freeable phys s =
    s.ready
    && (phys % page_size == 0)
    && ltb (phys / page_size) s.highest_page
    && bitmap_test s.bitmap (phys / page_size)

pub free_page-of_freeable :
    (phys : ℕ) (s : Pmm)
    → is_freeable phys s ≡ true
    → free_page phys s ≡ drop_page (phys / page_size) s
unfolding free_page
free_page-of_freeable phys s h = ground arith

pub free_page-of_not_freeable :
    (phys : ℕ) (s : Pmm) → is_freeable phys s ≡ false → free_page phys s ≡ s
unfolding free_page
free_page-of_not_freeable phys s h = ground arith

pub freeable-lt :
    (phys : ℕ) (s : Pmm) → is_freeable phys s ≡ true → phys / page_size < s.highest_page
freeable-lt phys s h = ground arith

pub freeable-taken :
    (phys : ℕ) (s : Pmm)
    → is_freeable phys s ≡ true
    → bitmap_test s.bitmap (phys / page_size) ≡ true
freeable-taken phys s h = ground arith

pub free_page-IsValid : {s : Pmm} (phys : ℕ) → IsValid s → IsValid (free_page phys s)
free_page-IsValid {s} phys v = elim (Bool-cases (is_freeable phys s)) [
  | inl e ↦
      rw (free_page-of_freeable phys s e)
        (drop_page-IsValid (phys / page_size) v (freeable-lt phys s e) (freeable-taken phys s e))
  | inr e ↦ rw (free_page-of_not_freeable phys s e) v
]

-- `pmm_get_free_pages` and the used pages that the bitmap shows make up `pmm_get_total_pages`.
pub get_free_pages-add-used_below :
    (s : Pmm)
    → IsValid s
    → get_free_pages s + used_below s.bitmap (get_total_pages s) ≡ get_total_pages s
unfolding get_free_pages get_total_pages
get_free_pages-add-used_below s v = ground (arith, v.counted, used_below-le s.bitmap s.highest_page)
