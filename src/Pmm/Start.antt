-- ===== src/Pmm/Start.antt =====
-- kernel/mm/pmm.c: the state in which `pmm_init` leaves the memory manager.
use gnuwindows.Base.{ℕ, ◌/◌, ◌≡◌, Bool, true, ◌==◌, not, ◌&&◌, ◌||◌, Memory}
use gnuwindows.Pmm.Bitmap.{Bitmap, bitmap_test}
use gnuwindows.Pmm.Pages.{Pmm, page_size}
use gnuwindows.Pmm.Count.{IsValid}
use gnuwindows.Pmm.Boot.{BootInfo, desc_size_of, boot_magic}
use gnuwindows.Pmm.Map.{covered}
use gnuwindows.Pmm.Mark.{in_range, Marked}

-- A usable descriptor of the memory map covers page `q`.
abbrev pub described : Memory → BootInfo → ℕ → Bool
described mem bi q =
    covered mem (desc_size_of bi) (bi.memory_map_size / desc_size_of bi) bi.memory_map q

-- Page `q` meets a region that `pmm_init` never gives out.
abbrev pub reserved : ℕ → BootInfo → ℕ → Bool
reserved bi_at bi q =
    in_range 0 0x100000 q
    || (not (bi.kernel_physical_base == 0) && in_range bi.kernel_physical_base 0x100000 q)
    || in_range 0x80000 0x10000 q
    || in_range bi_at page_size q
    || (not (bi.memory_map == 0 || bi.memory_map_size == 0)
        && in_range bi.memory_map bi.memory_map_size q)

-- What one of the calls of `mark_range_used` does to a valid state.
record Protects (hit : ℕ → Bool) (s t : Pmm) : Type 0 where
  marked : Marked hit s t
  valid : IsValid t

-- The state that a successful `pmm_init` leaves.
pub record Started (mem : Memory) (bi_at : ℕ) (bi : BootInfo) (t : Pmm) : Type 0 where
  pub valid : IsValid t
  pub up : t.ready ≡ true
  pub pages : (q : ℕ) → bitmap_test t.bitmap q ≡ (reserved bi_at bi q || not (described mem bi q))

-- `pmm_init` succeeds.
abbrev pub accepts : ℕ → BootInfo → Bool
accepts bi_at bi = not (bi_at == 0) && bi.magic == boot_magic && not (bi.memory_map == 0)
