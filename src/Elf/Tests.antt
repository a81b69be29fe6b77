-- ===== src/Elf/Tests.antt =====
-- kernel/process/elf.c: a file with one segment, at 0x1000, and the theorems at it.
use gnuwindows.Base.{
  ℕ, ◌+◌, ◌-◌, ◌*◌, ◌≤◌, ◌≡◌, refl, inl, ◌⊎◌, none, some, List, [], ◌∷◌, ◌++◌, arith, Memory, fill,
  copy, get_or, ltb, if◌then◌else◌, read16, read32, read64, write8,
}
use gnuwindows.Elf.Load.{
  ElfInfo, segment_size, read_header, read_segment, extent_loop, widen, load_segment,
  segment_outside, load_loop, extent, finish, is_loadable, has_magic, is_x86_64_exec, table_outside,
  elf_load,
}
use gnuwindows.Elf.Accept.{WellFormed, Loaded, program_headers, info, elf_load-Loaded}
use gnuwindows.Elf.Segments.{Loads, Harmless}
use gnuwindows.Elf.Refuse.{elf_load-IsExecutable}
use gnuwindows.Elf.Checks.{IsExecutable}

abbrev word_bytes : ℕ → List ℕ
word_bytes b = b ∷ 0 ∷ 0 ∷ 0 ∷ 0 ∷ 0 ∷ 0 ∷ 0 ∷ []

-- 0x400000
abbrev base_bytes : List ℕ
base_bytes = 0 ∷ 0 ∷ 0x40 ∷ 0 ∷ 0 ∷ 0 ∷ 0 ∷ 0 ∷ []

abbrev header_bytes : List ℕ
header_bytes =
    0x7F ∷ b'E' ∷ b'L' ∷ b'F' ∷ 2 ∷ 1 ∷ 1 ∷ 0 ∷ word_bytes 0
    ++ 2 ∷ 0 ∷ 62 ∷ 0 ∷ 1 ∷ 0 ∷ 0 ∷ 0 ∷ base_bytes
    ++ word_bytes 58
    ++ word_bytes 0
    ++ 0 ∷ 0 ∷ 0 ∷ 0 ∷ 58 ∷ 0 ∷ 56 ∷ 0 ∷ 1 ∷ 0 ∷ []

abbrev file_bytes : List ℕ
file_bytes =
    header_bytes
    ++ 1 ∷ 0 ∷ 0 ∷ 0 ∷ 5 ∷ 0 ∷ 0 ∷ 0 ∷ word_bytes 114
    ++ base_bytes
    ++ base_bytes
    ++ word_bytes 4
    ++ word_bytes 8
    ++ word_bytes 0
    ++ 11 ∷ 22 ∷ 33 ∷ 44 ∷ []

abbrev memory : Memory
memory a = if ltb a 0x1000 then 0xCC else get_or file_bytes (a - 0x1000) 0xCC

loads_file :
    (elf_load 0x1000 118 memory).0
    ≡ some (record { entry = 0x400000; load_base = 0x400000; load_size = 8 })
unfolding elf_load is_loadable read_header read_segment extent extent_loop widen load_loop
    load_segment fill copy finish has_magic is_x86_64_exec table_outside segment_outside read16
    read32 read64 write8
loads_file = refl

memory-WellFormed : WellFormed 0x1000 118 memory
unfolding is_loadable read_header read_segment extent extent_loop widen has_magic is_x86_64_exec
    table_outside read16 read32 read64
memory-WellFormed = record {
  small = omega arith;
  loadable = refl;
  table = omega arith;
  fits = (
    λ h. record {
      in_file = omega arith;
      in_segment = omega arith;
      in_space = omega arith;
      apart = inl (omega arith);
    },
    tt,
  );
  spread = (λ h. tt, tt);
}

loads_example :
    (i : ElfInfo) × (mem' : Memory) × (elf_load 0x1000 118 memory ≡ (some i, mem'))
    × Loaded 0x1000 memory i mem'
loads_example = elf_load-Loaded 0x1000 118 memory memory-WellFormed

memory-table :
    (read_header memory 0x1000).phoff + (read_header memory 0x1000).phnum * segment_size ≤ 118
unfolding read_header read16 read32 read64
memory-table = omega arith

memory-Harmless : Loads (Harmless 0x1000 118) (program_headers 0x1000 memory)
unfolding read_header read_segment read16 read32 read64
memory-Harmless = (λ h. record { in_segment = omega arith; apart = inl (omega arith) }, tt)

accepts_example :
    (IsExecutable 0x1000 118 memory
      × ((elf_load 0x1000 118 memory).0
          ≡ some (
              info (read_header memory 0x1000) (extent 0x1000 (read_header memory 0x1000) memory))))
    ⊎ (¬ IsExecutable 0x1000 118 memory × ((elf_load 0x1000 118 memory).0 ≡ none))
accepts_example = elf_load-IsExecutable 0x1000 118 memory memory-table memory-Harmless
