-- ===== src/Elf/Refuse.antt =====
-- kernel/process/elf.c: which files `elf_load` accepts and which it refuses.
use gnuwindows.Base.{
  ◌⊎◌, ℕ, zero, suc, ◌+◌, ◌*◌, ◌≤◌, ◌≡◌, refl, ap, ◌∙◌, Bool, true, false, inl, inr, none, some,
  arith, Bool-cases, Memory, if◌then◌else◌, not, ◌&&◌,
}
use gnuwindows.Elf.Load.{
  Extent, segment_size, read_header, read_segment, is_load, load_segment, segment_outside, extent,
  finish, is_loadable, elf_load,
}
use gnuwindows.Elf.Copy.{read_segment_same}
use gnuwindows.Elf.Segments.{
  load_table, load_table_stop, Harmless, segments, Loads, Same, Same-load_segment, load_table_skip,
  load_table_load,
}
use gnuwindows.Elf.Rounds.{read_header-Same}
use gnuwindows.Elf.Checks.{
  escapes, IsExecutable, is_loadable-IsExecutable, IsExecutable-is_loadable,
}
use gnuwindows.Elf.Accept.{
  load_headers, load_headers-Rounds, is_loadable-header, program_headers, info,
  elf_load-is_loadable,
}

load_table-escapes :
    (data' size : ℕ) (m0 : Memory) (n ph : ℕ) (m : Memory)
    → data' ≤ ph
    → ph + n * segment_size ≤ data' + size
    → Same data' size m0 m
    → Loads (Harmless data' size) (segments n ph m0)
    → (load_table data' size n ph m).0 ≡ not (escapes size (segments n ph m0))
unfolding load_table
load_table-escapes data' size m0 zero ph m lo hi h harmless = refl
load_table-escapes data' size m0 (suc n) ph m lo hi h (first, rest) =
    let s = read_segment m0 ph in
    let q = read_segment_same ph m0 m (λ b bl bh. h b (omega arith) (omega arith)) in
    elim (Bool-cases (is_load s)) [
      | inr e ↦
          ap (λ r. r.0) (load_table_skip data' size n ph m s q e)
          ∙ load_table-escapes data' size m0 n (ph + segment_size) m (omega arith) (omega arith) h
              rest
          ∙ rw e refl
      | inl e ↦ elim (Bool-cases (segment_outside s size)) [
        | inl o ↦ ap (λ r. r.0) (load_table_stop data' size n ph m s q e o) ∙ rw (e, o) refl
        | inr o ↦
            ap (λ r. r.0) (load_table_load data' size n ph m s q e o)
            ∙ load_table-escapes data' size m0 n (ph + segment_size) (load_segment data' s m)
                (omega arith) (omega arith)
                (Same-load_segment data' size m0 m s (first e).in_segment (first e).apart h) rest
            ∙ rw (e, o) refl
      ]
    ]

finish_at :
    (data' size : ℕ) (m0 : Memory) (e : Extent) (r : Bool × Memory)
    → 58 ≤ size
    → Same data' size m0 r.1
    → (finish data' e r).0 ≡ (if r.0 then some (info (read_header m0 data') e) else none)
unfolding finish
finish_at data' size m0 e (true, mem) big h =
    ap (λ x. some (info x e)) (read_header-Same data' size m0 mem big h)
finish_at data' size m0 e (false, mem) big h = refl

elf_load-unloadable :
    (data' size : ℕ) (mem : Memory)
    → is_loadable data' size mem ≡ false
    → elf_load data' size mem ≡ (none, mem)
unfolding elf_load
elf_load-unloadable data' size mem l = rw l refl

-- What `elf_load` answers by its tests.
elf_load-tests :
    (data' size : ℕ) (mem : Memory)
    → (read_header mem data').phoff + (read_header mem data').phnum * segment_size ≤ size
    → Loads (Harmless data' size) (program_headers data' mem)
    → (elf_load data' size mem).0 ≡ (
        if is_loadable data' size mem && not (escapes size (program_headers data' mem))
        then some (info (read_header mem data') (extent data' (read_header mem data') mem))
        else none)
elf_load-tests data' size mem table harmless =
    let h = read_header mem data' in
    let e = extent data' h mem in
    let loop = load_headers data' size mem in
    elim (Bool-cases (is_loadable data' size mem)) [
      | inr l ↦ ap (λ r. r.0) (elf_load-unloadable data' size mem l) ∙ rw l refl
      | inl l ↦
          ap (λ r. r.0) (elf_load-is_loadable data' size mem l table harmless)
          ∙ finish_at data' size mem e loop (is_loadable-header data' size mem l)
              (load_headers-Rounds data' size mem l table harmless).kept
          ∙ rw
              (
                l,
                load_table-escapes data' size mem h.phnum (data' + h.phoff) mem (omega arith)
                    (omega (arith, table)) (λ b lo hi. refl) harmless,
              )
              refl
    ]

-- When the program headers lie in the file and no segment is written over the file, `elf_load`
-- accepts just the executables of `IsExecutable`, with the entry of the header and the range of the
-- segments, and refuses every other file.
pub elf_load-IsExecutable :
    (data' size : ℕ) (mem : Memory)
    → (read_header mem data').phoff + (read_header mem data').phnum * segment_size ≤ size
    → Loads (Harmless data' size) (program_headers data' mem)
    → (IsExecutable data' size mem
        × ((elf_load data' size mem).0
            ≡ some (info (read_header mem data') (extent data' (read_header mem data') mem))))
      ⊎ (¬ IsExecutable data' size mem × ((elf_load data' size mem).0 ≡ none))
elf_load-IsExecutable data' size mem table harmless =
    let r = elf_load-tests data' size mem table harmless in
    let l = is_loadable data' size mem in
    let e = escapes size (program_headers data' mem) in
    elim (Bool-cases (l && not e)) [
      | inl t ↦
          inl (is_loadable-IsExecutable data' size mem (ground arith) (ground arith), r ∙ rw t refl)
      | inr f ↦
          inr ((λ x. absurd (cc (IsExecutable-is_loadable data' size mem x, f))), r ∙ rw f refl)
    ]
