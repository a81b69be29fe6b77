-- ===== src/Pmm/Pages.antt =====
-- kernel/mm/pmm.c: the static counters beside the bitmap, and the operations on them once the
-- memory manager is running. A `uint64_t` wraps at `word`; the messages to the serial port are left
-- out. A loop `for (p = a; p < b; p++)` is a recursion on the rounds left, `b - a`.
use gnuwindows.Base.{
  ℕ, zero, suc, ◌+◌, ◌-◌, ◌*◌, ◌/◌, ◌%◌, ◌^◌, Bool, true, false, leb, ltb, ◌==◌, ◌||◌, not,
  if◌then◌else◌,
}
use gnuwindows.Pmm.Bitmap.{Bitmap, max_pages, bitmap_set, bitmap_clear, bitmap_test}

abbrev pub page_size : ℕ
page_size = 4096

abbrev pub word : ℕ
word = 2 ^ 64

-- `pmm_bitmap`, `pmm_total`, `pmm_used`, `pmm_highest_page`, `pmm_ready`
pub record Pmm : Type 0 where
  pub bitmap : Bitmap
  pub total : ℕ
  pub used : ℕ
  pub highest_page : ℕ
  pub ready : Bool

-- `bitmap_set(p); pmm_used++;`
unfoldable pub take_page : ℕ → Pmm → Pmm
take_page p s = record s { bitmap = bitmap_set s.bitmap p; used = (s.used + 1) % word }

-- one round of the loop of `mark_range_used`
unfoldable pub mark_page : ℕ → Pmm → Pmm
mark_page p s = if bitmap_test s.bitmap p then s else take_page p s

unfoldable pub mark_pages : ℕ → ℕ → Pmm → Pmm
mark_pages zero p s = s
mark_pages (suc n) p s = mark_pages n (p + 1) (mark_page p s)

-- the pages `start` and `end` of the loop of `mark_range_used`
abbrev pub range_start : ℕ → ℕ
range_start phys = phys / page_size

abbrev pub range_end : ℕ → ℕ → ℕ
range_end phys size =
    let end = (phys + size + page_size - 1) % word / page_size in
    if ltb max_pages end then max_pages else end

-- `mark_range_used`, also by its public name `pmm_mark_used`
unfoldable pub mark_used : ℕ → ℕ → Pmm → Pmm
mark_used phys size s =
    if size == 0
    then s
    else mark_pages (range_end phys size - range_start phys) (range_start phys) s

unfoldable pub alloc_page_loop : ℕ → ℕ → Pmm → ℕ × Pmm
alloc_page_loop zero p s = (0, s)
alloc_page_loop (suc n) p s = elim (bitmap_test s.bitmap p) [
  | true ↦ alloc_page_loop n (p + 1) s
  | false ↦ (p * page_size % word, take_page p s)
]

unfoldable pub alloc_page : Pmm → ℕ × Pmm
alloc_page s = if not s.ready then (0, s) else alloc_page_loop s.highest_page 0 s

-- `for (i = 0; i < count; i++) { bitmap_set(start + i); pmm_used++; }`
unfoldable pub take_run : ℕ → ℕ → Pmm → Pmm
take_run zero p s = s
take_run (suc n) p s = take_run n (p + 1) (take_page p s)

-- The loop of `pmm_alloc_pages` at page `p`, with its variables `run` and `start`.
unfoldable pub alloc_pages_loop : ℕ → ℕ → ℕ → ℕ → ℕ → Pmm → ℕ × Pmm
alloc_pages_loop count zero p run start s = (0, s)
alloc_pages_loop count (suc n) p run start s = elim (bitmap_test s.bitmap p) [
  | true ↦ alloc_pages_loop count n (p + 1) 0 start s
  | false ↦
      let start' = (if run == 0 then p else start) in
      elim (run + 1 == count) [
        | true ↦ (start' * page_size % word, take_run count start' s)
        | false ↦ alloc_pages_loop count n (p + 1) (run + 1) start' s
      ]
]

unfoldable pub alloc_pages : ℕ → Pmm → ℕ × Pmm
alloc_pages count s =
    if not s.ready || count == 0
    then (0, s)
    else if count == 1
    then alloc_page s
    else alloc_pages_loop count s.highest_page 0 0 0 s

-- `bitmap_clear(p); if (pmm_used) pmm_used--;`
unfoldable pub drop_page : ℕ → Pmm → Pmm
drop_page p s = record s {
  bitmap = bitmap_clear s.bitmap p;
  used = if s.used == 0 then s.used else s.used - 1;
}

-- `phys & (PAGE_SIZE - 1)` is the remainder by `page_size`.
unfoldable pub free_page : ℕ → Pmm → Pmm
free_page phys s =
    let p = phys / page_size in
    if not s.ready || not (phys % page_size == 0)
    then s
    else if leb s.highest_page p
    then s
    else if not (bitmap_test s.bitmap p)
    then s
    else drop_page p s

unfoldable pub free_pages_loop : ℕ → ℕ → ℕ → Pmm → Pmm
free_pages_loop zero i phys s = s
free_pages_loop (suc n) i phys s =
    free_pages_loop n (i + 1) phys (free_page ((phys + i * page_size) % word) s)

unfoldable pub free_pages : ℕ → ℕ → Pmm → Pmm
unfolding free_pages_loop
free_pages phys count s = free_pages_loop count 0 phys s

unfoldable pub get_total_pages : Pmm → ℕ
get_total_pages s = s.highest_page

unfoldable pub get_used_pages : Pmm → ℕ
get_used_pages s = s.used

unfoldable pub get_free_pages : Pmm → ℕ
get_free_pages s = if ltb s.highest_page s.used then 0 else s.highest_page - s.used
