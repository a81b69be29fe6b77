-- ===== src/Pmm/Tests.antt =====
-- kernel/mm/pmm.c: runs on eight pages, and the theorems at them.
use gnuwindows.Base.{
  ℕ, ◌+◌, ◌%◌, ◌<◌, ◌≢◌, ◌≤◌, ◌≡◌, refl, true, arith, ◌==◌, if◌then◌else◌, test_bit_full, Memory,
}
use gnuwindows.Pmm.Bitmap.{Bitmap, bitmap_test}
use gnuwindows.Pmm.Pages.{Pmm, alloc_pages, alloc_pages_loop, free_page, free_pages}
use gnuwindows.Pmm.Count.{IsValid, used_below}
use gnuwindows.Pmm.Alloc.{Outcome, alloc_pages-first_fit, alloc_pages-IsValid}
use gnuwindows.Pmm.Free.{FreedAt, free_page-FreedAt, GivenBack, free_pages-alloc_pages}
use gnuwindows.Pmm.Boot.{BootInfo, read_map, blank}
use gnuwindows.Pmm.Map.{read_map-ends}

-- Pages 1, 2, 3 and 6 are free.
abbrev eight : Bitmap
eight i = if i == 0 then 0b1011_0001 else 0xFF

abbrev pages : Pmm
pages = record { bitmap = eight; total = 8; used = 4; highest_page = 8; ready = true }

pages_above : (p : ℕ) → 8 ≤ p → bitmap_test eight p ≡ true
unfolding bitmap_test
pages_above p h = ground (arith, test_bit_full (p % 8) (omega arith))

pages-IsValid : IsValid pages
unfolding used_below bitmap_test
pages-IsValid = record {
  bytes = λ i. ground arith;
  small = omega arith;
  counted = refl;
  above = pages_above;
}

-- Pages 2 and 3 after page 1 would fit two, but page 1 is free as well: the first fit is 1.
first_two : (alloc_pages 2 pages).0 ≡ 4096
unfolding alloc_pages bitmap_test alloc_pages_loop
first_two = refl

none_of_four : (alloc_pages 4 pages).0 ≡ 0
unfolding alloc_pages bitmap_test alloc_pages_loop
none_of_four = refl

first_fit_example : Outcome 3 pages (alloc_pages 3 pages)
first_fit_example = alloc_pages-first_fit {s = pages} pages-IsValid 3 refl (omega arith)

alloc_pages-IsValid_example : IsValid (alloc_pages 2 pages).1
alloc_pages-IsValid_example = alloc_pages-IsValid {s = pages} 2 pages-IsValid

two_granted : (alloc_pages 2 pages).0 ≢ 0
unfolding alloc_pages bitmap_test alloc_pages_loop
two_granted = omega arith

free_pages-alloc_pages_example :
    GivenBack pages (free_pages (alloc_pages 2 pages).0 2 (alloc_pages 2 pages).1)
free_pages-alloc_pages_example =
    free_pages-alloc_pages 2 {s = pages} pages-IsValid refl (omega arith) two_granted

-- page 4 is in use, and is freed
free_page_example : FreedAt 0x4000 pages (free_page 0x4000 pages)
free_page_example = free_page-FreedAt {s = pages} 0x4000 pages-IsValid

-- One descriptor at 0x5000: four pages of conventional memory from 2 MiB on.
abbrev firmware : Memory
firmware a = if a == 0x5000 then 7 else if a == 0x500A then 0x20 else if a == 0x5018 then 4 else 0

abbrev boot_info : BootInfo
boot_info = record {
  magic = 0x31425747;
  kernel_physical_base = 0x100000;
  memory_map = 0x5000;
  memory_map_size = 40;
  memory_map_desc_size = 40;
}

read_map_example : 0x5028 < (read_map firmware 41 0x5000 0x5028 40 (blank pages)).0 + 40
read_map_example =
    read_map-ends firmware 0x5028 40 (omega arith) 41 0x5000 (blank pages) (omega arith)
