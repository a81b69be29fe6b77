-- ===== src/Elf/Accept.antt =====
-- kernel/process/elf.c: `elf_load` of a well-formed file.
use gnuwindows.Base.{
  ℕ, zero, suc, ◌+◌, ◌-◌, ◌*◌, ◌%◌, ◌^◌, ap, ◌≤◌, ◌<◌, ◌≡◌, refl, ◌∙◌, Bool, true, false, some,
  List, arith, Memory,
}
use gnuwindows.Elf.Load.{
  Header, Segment, Extent, ElfInfo, word, segment_size, read_header, read_segment, is_load,
  load_loop, widen, extent_loop, extent, no_segment, finish, is_loadable, elf_load,
}
use gnuwindows.Elf.Copy.{Image}
use gnuwindows.Elf.Rounds.{Rounds, read_header-Same, load_loop-load_table}
use gnuwindows.Elf.Segments.{
  Harmless, Same, load_table, segments, Loads, Loads-map, Fits, Spread, Unloaded, load_table-Result,
}

-- The extent `e` covers the PT_LOAD entry `s`.
pub record Covers (e : Extent) (s : Segment) : Type 0 where
  pub low : e.low ≤ s.vaddr
  pub high : s.vaddr + s.memsz ≤ e.high

widen-grows : (s : Segment) (e : Extent) → ((widen s e).low ≤ e.low) × (e.high ≤ (widen s e).high)
unfolding widen
widen-grows s e = (ground arith, ground arith)

widen-Covers :
    (s : Segment) (e : Extent) → is_load s ≡ true → s.vaddr + s.memsz < word → Covers (widen s e) s
unfolding widen
widen-Covers s e h w = record { low = ground arith; high = ground arith }

pub extent_loop-grows :
    (n ph : ℕ) (mem : Memory) (e : Extent)
    → ((extent_loop n ph mem e).low ≤ e.low) × (e.high ≤ (extent_loop n ph mem e).high)
unfolding extent_loop
extent_loop-grows zero ph mem e = (omega arith, omega arith)
extent_loop-grows (suc n) ph mem e =
    let w = widen-grows (read_segment mem ph) e in
    let r = extent_loop-grows n (ph + segment_size) mem (widen (read_segment mem ph) e) in
    (omega (arith, w.0, r.0), omega (arith, w.1, r.1))

extent_loop-Covers :
    (n ph : ℕ) (mem : Memory) (e : Extent)
    → Loads (λ s. s.vaddr + s.memsz < word) (segments n ph mem)
    → Loads (Covers (extent_loop n ph mem e)) (segments n ph mem)
unfolding extent_loop
extent_loop-Covers zero ph mem e h = tt
extent_loop-Covers (suc n) ph mem e (h, hs) =
    let s = read_segment mem ph in
    let r = extent_loop-grows n (ph + segment_size) mem (widen s e) in
    (
      λ l.
          let c = widen-Covers s e l (h l) in
          record { low = omega (arith, c.low, r.0); high = omega (arith, c.high, r.1) },
      extent_loop-Covers n (ph + segment_size) mem (widen s e) hs,
    )

abbrev pub program_headers : ℕ → Memory → List Segment
program_headers data' mem = let h = read_header mem data' in segments h.phnum (data' + h.phoff) mem

-- A file of `size` bytes at `data` that passes the checks of `elf_load`, with its program headers
-- inside, and segments that fit and do not overlap.
pub record WellFormed (data' size : ℕ) (mem : Memory) : Type 0 where
  pub small : size < word
  pub loadable : is_loadable data' size mem ≡ true
  pub table : (read_header mem data').phoff + (read_header mem data').phnum * segment_size ≤ size
  pub fits : Loads (Fits data' size) (program_headers data' mem)
  pub spread : Spread (program_headers data' mem)

-- The range that `elf_load` reports holds the PT_LOAD entry `s`.
pub record Reported (i : ElfInfo) (s : Segment) : Type 0 where
  pub low : i.load_base ≤ s.vaddr
  pub high : s.vaddr + s.memsz ≤ i.load_base + i.load_size

-- `elf_load` has brought `mem` to `mem'`, and reported `i`.
pub record Loaded (data' : ℕ) (mem : Memory) (i : ElfInfo) (mem' : Memory) : Type 0 where
  pub entry : i.entry ≡ (read_header mem data').entry
  pub images : Loads (λ s. Image data' mem s mem') (program_headers data' mem)
  pub others : (b : ℕ) → Unloaded b (program_headers data' mem) → mem' b ≡ mem b
  pub reported : Loads (Reported i) (program_headers data' mem)

widen-bounded : (s : Segment) (e : Extent) → e.high < word → (widen s e).high < word
unfolding widen
widen-bounded s e h = ground arith

extent_loop-bounded :
    (n ph : ℕ) (mem : Memory) (e : Extent) → e.high < word → (extent_loop n ph mem e).high < word
unfolding extent_loop
extent_loop-bounded zero ph mem e h = h
extent_loop-bounded (suc n) ph mem e h =
    extent_loop-bounded n (ph + segment_size) mem (widen (read_segment mem ph) e)
      (widen-bounded (read_segment mem ph) e h)

abbrev pub info : Header → Extent → ElfInfo
info h e = record { entry = h.entry; load_base = e.low; load_size = (e.high + word - e.low) % word }

Reported-Covers :
    (h : Header) (e : Extent) (s : Segment) → e.high < word → Covers e s → Reported (info h e) s
Reported-Covers h e s b c = record { low = c.low; high = omega (arith, c.low, c.high, b) }

finish_complete :
    (data' size : ℕ) (m0 : Memory) (e : Extent) (r : Bool × Memory)
    → 58 ≤ size
    → Same data' size m0 r.1
    → r.0 ≡ true
    → finish data' e r ≡ (some (info (read_header m0 data') e), r.1)
unfolding finish
finish_complete data' size m0 e (true, mem) big h c =
    ap (λ x. (some (info x e), mem)) (read_header-Same data' size m0 mem big h)
finish_complete data' size m0 e (false, mem) big h c = absurd (cc c)

pub is_loadable-header :
    (data' size : ℕ) (mem : Memory) → is_loadable data' size mem ≡ true → 58 ≤ size
unfolding is_loadable
is_loadable-header data' size mem l = ground arith

-- the load of the whole table
abbrev pub load_headers : ℕ → ℕ → Memory → Bool × Memory
load_headers data' size mem =
    let h = read_header mem data' in load_table data' size h.phnum (data' + h.phoff) mem

pub load_headers-Rounds :
    (data' size : ℕ) (mem : Memory)
    → is_loadable data' size mem ≡ true
    → (read_header mem data').phoff + (read_header mem data').phnum * segment_size ≤ size
    → Loads (Harmless data' size) (program_headers data' mem)
    → Rounds data' size mem
        (load_loop data' size
          ((read_header mem data').phnum + 2 ^ 16)
          0
          (data' + (read_header mem data').phoff)
          mem)
        (load_headers data' size mem)
load_headers-Rounds data' size mem l table harmless =
    let h = read_header mem data' in
    load_loop-load_table data' size mem h.phnum (h.phnum + 2 ^ 16) 0 (data' + h.phoff) mem
      (is_loadable-header data' size mem l) (omega arith) (omega arith) (omega arith)
      (omega (arith, table)) (λ b lo hi. refl) harmless

pub elf_load-is_loadable :
    (data' size : ℕ) (mem : Memory)
    → is_loadable data' size mem ≡ true
    → (read_header mem data').phoff + (read_header mem data').phnum * segment_size ≤ size
    → Loads (Harmless data' size) (program_headers data' mem)
    → elf_load data' size mem
      ≡ finish data' (extent data' (read_header mem data') mem) (load_headers data' size mem)
unfolding elf_load
elf_load-is_loadable data' size mem l table harmless =
    let r = load_headers-Rounds data' size mem l table harmless in
    rw l (ap (finish data' (extent data' (read_header mem data') mem)) r.same_result)

-- `elf_load` accepts a well-formed file: it reports the entry of the header and a range that holds
-- every PT_LOAD segment, each segment stands at its address with its bytes in the file and zeros
-- after them, and no other byte of memory changes.
pub elf_load-Loaded :
    (data' size : ℕ) (mem : Memory)
    → WellFormed data' size mem
    → (i : ElfInfo) × (mem' : Memory) × (elf_load data' size mem ≡ (some i, mem'))
      × Loaded data' mem i mem'
unfolding extent
elf_load-Loaded data' size mem w =
    let h = read_header mem data' in
    let e = extent data' h mem in
    let loop = load_headers data' size mem in
    let harmless : Loads (Harmless data' size) (program_headers data' mem) =
      Loads-map (program_headers data' mem)
        (λ s f. record { in_segment = f.in_segment; apart = f.apart }) w.fits in
    let kept = (load_headers-Rounds data' size mem w.loadable w.table harmless).kept in
    let r =
      load_table-Result data' size mem h.phnum (data' + h.phoff) mem w.small (omega arith)
        (omega (arith, w.table)) (λ b lo hi. refl) w.fits w.spread in
    let bounded = extent_loop-bounded h.phnum (data' + h.phoff) mem no_segment (omega arith) in
    (
      info h e,
      loop.1,
      elf_load-is_loadable data' size mem w.loadable w.table harmless
          ∙ finish_complete data' size mem e loop (is_loadable-header data' size mem w.loadable)
              kept r.complete,
      record {
        entry = refl;
        images = r.images;
        others = r.others;
        reported =
            Loads-map (program_headers data' mem) (λ s c. Reported-Covers h e s bounded c)
              (extent_loop-Covers h.phnum (data' + h.phoff) mem no_segment
                (Loads-map (program_headers data' mem) (λ s f. f.in_space) w.fits));
      },
    )
