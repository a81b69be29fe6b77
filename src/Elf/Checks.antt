-- ===== src/Elf/Checks.antt =====
-- kernel/process/elf.c: the tests of `elf_load`, against what the format says of a file that can be
-- loaded.
use gnuwindows.Base.{
  ℕ, zero, suc, ◌+◌, ◌-◌, ◌*◌, ◌%◌, ◌^◌, ◌≤◌, ◌<◌, ◌≡◌, ◌≢◌, refl, Bool, true, false, ◌⊎◌, inl, inr,
  List, [], ◌∷◌, arith, Bool-cases, Memory, read16, read64, ◌||◌, ◌&&◌, not,
}
use gnuwindows.Elf.Load.{
  Segment, Extent, word, segment_size, read_header, read_segment, is_load, has_magic,
  is_x86_64_exec, table_outside, segment_outside, widen, extent_loop, extent, no_segment,
  is_loadable,
}
use gnuwindows.Elf.Segments.{segments, Loads}
use gnuwindows.Elf.Accept.{program_headers, extent_loop-grows}

-- A PT_LOAD entry whose bytes the test of `elf_load` finds outside the file
abbrev pub escapes : ℕ → List Segment → Bool
escapes size [] = false
escapes size (s ∷ l) = (is_load s && segment_outside s size) || escapes size l

-- Some PT_LOAD entry has an address below the last byte of the address space.
abbrev pub HasLoad : List Segment → Type 0
HasLoad [] = ⊥
HasLoad (s ∷ l) = ((s.kind ≡ 1) × (s.vaddr < 2 ^ 64 - 1)) ⊎ HasLoad l

-- The `size` bytes at `data` are an ELF64 executable for x86-64 that has something to load, and whose
-- table and segments end inside the file. Sums are those of a `uint64_t`.
pub record IsExecutable (data' size : ℕ) (mem : Memory) : Type 0 where
  pub given : data' ≢ 0
  pub has_header : 58 ≤ size
  pub magic0 : mem data' ≡ 0x7F
  pub magic1 : mem (data' + 1) ≡ 0x45
  pub magic2 : mem (data' + 2) ≡ 0x4C
  pub magic3 : mem (data' + 3) ≡ 0x46
  pub class64 : mem (data' + 4) ≡ 2
  pub executable : read16 mem (data' + 16) ≡ 2
  pub x86_64 : read16 mem (data' + 18) ≡ 62
  pub table :
      (read64 mem (data' + 32) + read16 mem (data' + 56) * read16 mem (data' + 54)) % 2 ^ 64 ≤ size
  pub has_load : HasLoad (program_headers data' mem)
  pub segments_inside :
      Loads (λ s. (s.offset + s.filesz) % 2 ^ 64 ≤ size) (program_headers data' mem)

escapes-inside :
    (size : ℕ) (l : List Segment)
    → escapes size l ≡ false
    → Loads (λ s. (s.offset + s.filesz) % 2 ^ 64 ≤ size) l
unfolding segment_outside
escapes-inside size [] e = tt
escapes-inside size (s ∷ l) e = (λ h. ground arith, escapes-inside size l (ground arith))

inside-escapes :
    (size : ℕ) (l : List Segment)
    → Loads (λ s. (s.offset + s.filesz) % 2 ^ 64 ≤ size) l
    → escapes size l ≡ false
unfolding segment_outside
inside-escapes size [] h = refl
inside-escapes size (s ∷ l) (h, hs) =
    let r = inside-escapes size l hs in
    elim (Bool-cases (is_load s)) [ inl e ↦ let k = h e in ground arith | inr e ↦ ground arith ]

widen_low :
    (s : Segment) (e : Extent)
    → e.low ≡ word - 1
    → ((s.kind ≡ 1) × (s.vaddr < 2 ^ 64 - 1)) ⊎ ((widen s e).low ≡ word - 1)
unfolding widen
widen_low s e q = ground arith

low_widen :
    (s : Segment) (e : Extent) → s.kind ≡ 1 → s.vaddr < 2 ^ 64 - 1 → (widen s e).low < word - 1
unfolding widen
low_widen s e k v = ground arith

extent_loop-HasLoad :
    (n ph : ℕ) (mem : Memory) (e : Extent)
    → (extent_loop n ph mem e).low < word - 1
    → e.low ≡ word - 1
    → HasLoad (segments n ph mem)
unfolding extent_loop
extent_loop-HasLoad zero ph mem e h q = absurd (omega arith)
extent_loop-HasLoad (suc n) ph mem e h q =
    let s = read_segment mem ph in
    elim (widen_low s e q) [
      | inl k ↦ inl k
      | inr k ↦ inr (extent_loop-HasLoad n (ph + segment_size) mem (widen s e) h k)
    ]

HasLoad-extent_loop :
    (n ph : ℕ) (mem : Memory) (e : Extent)
    → HasLoad (segments n ph mem)
    → (extent_loop n ph mem e).low < word - 1
unfolding extent_loop
HasLoad-extent_loop zero ph mem e h = absurd h
HasLoad-extent_loop (suc n) ph mem e h = elim h [
  | inl k ↦
      let s = read_segment mem ph in
      omega
        (arith, low_widen s e k.0 k.1, (extent_loop-grows n (ph + segment_size) mem (widen s e)).0)
  | inr k ↦ HasLoad-extent_loop n (ph + segment_size) mem (widen (read_segment mem ph) e) k
]

pub is_loadable-IsExecutable :
    (data' size : ℕ) (mem : Memory)
    → is_loadable data' size mem ≡ true
    → escapes size (program_headers data' mem) ≡ false
    → IsExecutable data' size mem
unfolding is_loadable has_magic is_x86_64_exec table_outside extent read_header
is_loadable-IsExecutable data' size mem h e =
    let hd = read_header mem data' in
    let g = (extent_loop-grows hd.phnum (data' + hd.phoff) mem no_segment).0 in
    record {
      given = ground arith;
      has_header = ground arith;
      magic0 = ground arith;
      magic1 = ground arith;
      magic2 = ground arith;
      magic3 = ground arith;
      class64 = ground arith;
      executable = ground arith;
      x86_64 = ground arith;
      table = ground arith;
      has_load = extent_loop-HasLoad hd.phnum (data' + hd.phoff) mem no_segment (ground arith) refl;
      segments_inside = escapes-inside size (program_headers data' mem) e;
    }

pub IsExecutable-is_loadable :
    (data' size : ℕ) (mem : Memory)
    → IsExecutable data' size mem
    → (is_loadable data' size mem && not (escapes size (program_headers data' mem))) ≡ true
unfolding is_loadable has_magic is_x86_64_exec table_outside extent read_header
IsExecutable-is_loadable data' size mem x =
    let e = inside-escapes size (program_headers data' mem) x.segments_inside in
    let l =
      HasLoad-extent_loop (read_header mem data').phnum (data' + (read_header mem data').phoff) mem
        no_segment x.has_load in
    ground arith
