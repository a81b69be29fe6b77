-- ===== src/Elf/Load.antt =====
-- kernel/process/elf.c, with the packed layout of `Elf64_Ehdr` (58 bytes) and `Elf64_Phdr` (56).
-- A `uint64_t` sum wraps at `word`; addresses are plain numbers. The messages are left out.
use gnuwindows.Base.{
  ℕ, zero, suc, ◌+◌, ◌-◌, ◌*◌, ◌%◌, ◌^◌, Bool, true, false, Option, none, some, ◌==◌, ltb,
  if◌then◌else◌, ◌&&◌, ◌||◌, not, Memory, read16, read32, read64, fill, copy,
}

abbrev pub word : ℕ
word = 2 ^ 64

pub record Header : Type 0 where
  pub kind : ℕ
  pub machine : ℕ
  pub entry : ℕ
  pub phoff : ℕ
  pub phentsize : ℕ
  pub phnum : ℕ

abbrev pub header_size : ℕ
header_size = 58

unfoldable pub read_header : Memory → ℕ → Header
read_header mem data' = record {
  kind = read16 mem (data' + 16);
  machine = read16 mem (data' + 18);
  entry = read64 mem (data' + 24);
  phoff = read64 mem (data' + 32);
  phentsize = read16 mem (data' + 54);
  phnum = read16 mem (data' + 56);
}

pub record Segment : Type 0 where
  pub kind : ℕ
  pub offset : ℕ
  pub vaddr : ℕ
  pub filesz : ℕ
  pub memsz : ℕ

abbrev pub segment_size : ℕ
segment_size = 56

-- `ph[i]`
unfoldable pub read_segment : Memory → ℕ → Segment
read_segment mem ph = record {
  kind = read32 mem ph;
  offset = read64 mem (ph + 8);
  vaddr = read64 mem (ph + 16);
  filesz = read64 mem (ph + 32);
  memsz = read64 mem (ph + 40);
}

abbrev pub is_load : Segment → Bool
is_load s = s.kind == 1

-- 0x7F, 'E', 'L', 'F', and ELFCLASS64
unfoldable pub has_magic : Memory → ℕ → Bool
has_magic mem data' =
    mem data' == 0x7F
    && mem (data' + 1) == b'E'
    && mem (data' + 2) == b'L'
    && mem (data' + 3) == b'F'

-- ET_EXEC and EM_X86_64
unfoldable pub is_x86_64_exec : Header → Bool
is_x86_64_exec h = h.kind == 2 && h.machine == 62

-- `e_phoff + e_phnum * e_phentsize > size`
unfoldable pub table_outside : Header → ℕ → Bool
table_outside h size = ltb size ((h.phoff + h.phnum * h.phentsize) % word)

-- `min_v` and `max_v`
pub record Extent : Type 0 where
  pub low : ℕ
  pub high : ℕ

unfoldable pub widen : Segment → Extent → Extent
widen s e =
    let end = (s.vaddr + s.memsz) % word in
    if is_load s
    then record {
      low = if ltb s.vaddr e.low then s.vaddr else e.low;
      high = if ltb e.high end then end else e.high;
    }
    else e

-- the first loop over the program headers
unfoldable pub extent_loop : ℕ → ℕ → Memory → Extent → Extent
extent_loop zero ph mem e = e
extent_loop (suc n) ph mem e = extent_loop n (ph + segment_size) mem (widen (read_segment mem ph) e)

unfoldable pub load_segment : ℕ → Segment → Memory → Memory
load_segment data' s mem = copy s.filesz s.vaddr (data' + s.offset) (fill s.memsz s.vaddr 0 mem)

-- `p_offset + p_filesz > size`
unfoldable pub segment_outside : Segment → ℕ → Bool
segment_outside s size = ltb size ((s.offset + s.filesz) % word)

-- The second loop, from the program header with index `i`, which stands at `ph`; the test says that it
-- has come to its end. `e_phnum` is read again in every round, from the memory as it then is; `i` is a
-- `uint16_t`, so there are at most 2 ^ 16 rounds.
unfoldable pub load_loop : ℕ → ℕ → ℕ → ℕ → ℕ → Memory → Bool × Memory
load_loop data' size zero i ph mem = (true, mem)
load_loop data' size (suc fuel) i ph mem =
    let s = read_segment mem ph in
    elim (ltb i (read_header mem data').phnum) [
      | false ↦ (true, mem)
      | true ↦ elim (is_load s) [
        | false ↦ load_loop data' size fuel (i + 1) (ph + segment_size) mem
        | true ↦ elim (segment_outside s size) [
          | true ↦ (false, mem)
          | false ↦ load_loop data' size fuel (i + 1) (ph + segment_size) (load_segment data' s mem)
        ]
      ]
    ]

pub record ElfInfo : Type 0 where
  pub entry : ℕ
  pub load_base : ℕ
  pub load_size : ℕ

abbrev pub no_segment : Extent
no_segment = record { low = word - 1; high = 0 }

unfoldable pub extent : ℕ → Header → Memory → Extent
extent data' h mem = extent_loop h.phnum (data' + h.phoff) mem no_segment

-- `e_entry` is read when the segments stand in memory.
unfoldable pub finish : ℕ → Extent → Bool × Memory → Option ElfInfo × Memory
finish data' e (false, mem) = (none, mem)
finish data' e (true, mem) = (
  some (record {
    entry = (read_header mem data').entry;
    load_base = e.low;
    load_size = (e.high + word - e.low) % word;
  }),
  mem,
)

-- What `elf_load` asks for before it writes.
unfoldable pub is_loadable : ℕ → ℕ → Memory → Bool
is_loadable data' size mem =
    let h = read_header mem data' in
    not (data' == 0 || ltb size header_size)
    && has_magic mem data'
    && mem (data' + 4) == 2
    && is_x86_64_exec h
    && not (table_outside h size)
    && not ((extent data' h mem).low == word - 1)

-- `elf_load`, with a pointer `out` that is not NULL; -1 is `none`
unfoldable pub elf_load : ℕ → ℕ → Memory → Option ElfInfo × Memory
elf_load data' size mem =
    let h = read_header mem data' in
    let loaded = load_loop data' size (h.phnum + 2 ^ 16) 0 (data' + h.phoff) mem in
    if not (is_loadable data' size mem)
    then (none, mem)
    else finish data' (extent data' h mem) loaded
