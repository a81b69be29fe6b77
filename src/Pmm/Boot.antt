-- ===== src/Pmm/Boot.antt =====
-- kernel/mm/pmm.c: `pmm_init`, which reads the memory map that the bootloader hands over in
-- `GW_BOOT_INFO` (kernel/include/gw/boot_info.h). Memory is a function from addresses to bytes; a
-- descriptor has the layout of `efi_memory_descriptor_t` on x86_64, 40 bytes, little-endian.
use gnuwindows.Base.{
  ℕ, zero, suc, ◌+◌, ◌-◌, ◌*◌, ◌/◌, ◌%◌, Bool, true, false, leb, ltb, ◌==◌, ◌&&◌, ◌||◌, not,
  if◌then◌else◌, Memory, Status, ok, fail, read32, read64,
}
use gnuwindows.Pmm.Bitmap.{Bitmap, max_pages, bitmap_clear, bitmap_test}
use gnuwindows.Pmm.Pages.{Pmm, page_size, word, mark_used}

pub record BootInfo : Type 0 where
  pub magic : ℕ
  pub kernel_physical_base : ℕ
  pub memory_map : ℕ
  pub memory_map_size : ℕ
  pub memory_map_desc_size : ℕ

abbrev pub boot_magic : ℕ
boot_magic = 0x31425747

pub record Descriptor : Type 0 where
  pub kind : ℕ
  pub physical_start : ℕ
  pub number_of_pages : ℕ

abbrev pub descriptor_size : ℕ
descriptor_size = 40

unfoldable pub descriptor : Memory → ℕ → Descriptor
descriptor mem at = record {
  kind = read32 mem at;
  physical_start = read64 mem (at + 8);
  number_of_pages = read64 mem (at + 24);
}

-- EfiConventionalMemory, EfiBootServicesCode and -Data, EfiLoaderCode and -Data
unfoldable pub is_usable : ℕ → Bool
is_usable kind = kind == 7 || kind == 3 || kind == 4 || kind == 1 || kind == 2

-- `for (p = start_page; p < last; p++) if (bitmap_test(p)) bitmap_clear(p);`
unfoldable pub clear_pages : ℕ → ℕ → Bitmap → Bitmap
clear_pages zero p m = m
clear_pages (suc n) p m = clear_pages n (p + 1) (if bitmap_test m p then bitmap_clear m p else m)

abbrev pub start_page : Descriptor → ℕ
start_page d = d.physical_start / page_size

-- `start_page + npages`, which wraps
abbrev pub end_page : Descriptor → ℕ
end_page d = (start_page d + d.number_of_pages) % word

abbrev pub last_page : Descriptor → ℕ
last_page d = if ltb max_pages (end_page d) then max_pages else end_page d

-- The body of the loop over the memory map.
unfoldable pub add_descriptor : Descriptor → Pmm → Pmm
add_descriptor d s =
    let s' = record s {
      highest_page = if ltb s.highest_page (end_page d) then end_page d else s.highest_page;
    } in
    if is_usable d.kind && ltb (start_page d) max_pages
    then record s' {
      bitmap = clear_pages (last_page d - start_page d) (start_page d) s.bitmap;
      total = (s.total + (last_page d + word - start_page d)) % word;
    }
    else s'

-- `while (map + desc_size <= end)`, with the place where it stops. The pointers are plain numbers:
-- they stay inside the address space.
unfoldable pub read_map : Memory → ℕ → ℕ → ℕ → ℕ → Pmm → ℕ × Pmm
read_map mem zero at end desc_size s = (at, s)
read_map mem (suc fuel) at end desc_size s = elim (leb (at + desc_size) end) [
  | true ↦ read_map mem fuel (at + desc_size) end desc_size (add_descriptor (descriptor mem at) s)
  | false ↦ (at, s)
]

-- `for (p = 0; p < pmm_highest_page; p++) if (bitmap_test(p)) pmm_used++;`
unfoldable pub recount : ℕ → ℕ → Bitmap → ℕ → ℕ
recount zero p m used = used
recount (suc n) p m used = recount n (p + 1) m (if bitmap_test m p then (used + 1) % word else used)

-- All pages used, all counters 0.
abbrev pub blank : Pmm → Pmm
blank s = record s { bitmap = λ i. 0xFF; total = 0; used = 0; highest_page = 0 }

unfoldable pub desc_size_of : BootInfo → ℕ
desc_size_of bi =
    if ltb bi.memory_map_desc_size descriptor_size then descriptor_size else bi.memory_map_desc_size

-- The state after the loop; a round moves `map` on, so a round for each byte is enough.
unfoldable pub after_map : Memory → BootInfo → Pmm → Pmm
after_map mem bi s =
    (read_map mem (bi.memory_map_size + 1) bi.memory_map (bi.memory_map + bi.memory_map_size)
      (desc_size_of bi) (blank s)).1

unfoldable pub cap_and_recount : Pmm → Pmm
cap_and_recount s =
    let highest = (if ltb max_pages s.highest_page then max_pages else s.highest_page) in
    record s { highest_page = highest; used = recount highest 0 s.bitmap 0 }

-- The regions that are never given out: the first 1 MiB, the kernel, the early stack, the boot
-- information at `bi_at`, and the memory map.
unfoldable pub protect : ℕ → BootInfo → Pmm → Pmm
protect bi_at bi s =
    let s = mark_used 0 0x100000 s in
    let s =
      (if bi.kernel_physical_base == 0
        then s
        else mark_used bi.kernel_physical_base (1024 * 1024) s) in
    let s = mark_used 0x80000 0x10000 s in
    let s = mark_used bi_at page_size s in
    if bi.memory_map == 0 || bi.memory_map_size == 0
    then s
    else mark_used bi.memory_map bi.memory_map_size s

-- `pmm_init`, called with the pointer `bi_at` to the boot information `bi`
unfoldable pub init : Memory → ℕ → BootInfo → Pmm → Status × Pmm
init mem bi_at bi s =
    if bi_at == 0 || not (bi.magic == boot_magic) || bi.memory_map == 0
    then (fail, s)
    else let t = protect bi_at bi (cap_and_recount (after_map mem bi s)) in
      (ok, record t { ready = true })
