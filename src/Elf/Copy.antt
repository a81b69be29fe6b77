-- ===== src/Elf/Copy.antt =====
-- kernel/process/elf.c: what memset_l and memcpy_l, and with them the load of one segment, do to
-- the bytes of memory.
use gnuwindows.Base.{
  fill, Apart, fill_frame, fill_inside, copy_frame, copy_inside, ℕ, ◌+◌, ◌%◌, ◌^◌, ◌≤◌, ◌<◌, ◌≡◌,
  refl, ap, ◌∙◌, inl, inr, arith, Memory, Outside, read32_same, read64_same,
}
use gnuwindows.Elf.Load.{Segment, read_segment, load_segment}

-- The segment `s` stands in `mem'`: its bytes in the file, then zeros.
pub record Image (data' : ℕ) (mem : Memory) (s : Segment) (mem' : Memory) : Type 0 where
  pub from_file : (i : ℕ) → i < s.filesz → mem' (s.vaddr + i) ≡ mem (data' + s.offset + i) % 2 ^ 8
  pub zeroed : (i : ℕ) → s.filesz ≤ i → i < s.memsz → mem' (s.vaddr + i) ≡ 0

pub load_segment_frame :
    (data' : ℕ) (s : Segment) (mem : Memory) (b : ℕ)
    → s.filesz ≤ s.memsz
    → Outside s.vaddr s.memsz b
    → load_segment data' s mem b ≡ mem b
unfolding load_segment
load_segment_frame data' s mem b le o =
    copy_frame s.filesz s.vaddr (data' + s.offset) (fill s.memsz s.vaddr 0 mem) b
      (elim o [ inl l ↦ inl l | inr r ↦ inr (omega arith) ])
    ∙ fill_frame s.memsz s.vaddr 0 mem b o

pub load_segment-Image :
    (data' size : ℕ) (s : Segment) (mem : Memory)
    → s.filesz ≤ s.memsz
    → s.offset + s.filesz ≤ size
    → Apart data' size s.vaddr s.memsz
    → Image data' mem s (load_segment data' s mem)
unfolding load_segment
load_segment-Image data' size s mem le fits a = record {
  from_file = λ i h.
      copy_inside s.filesz s.vaddr (data' + s.offset) (fill s.memsz s.vaddr 0 mem) i
        (elim a [ inl l ↦ inl (omega arith) | inr r ↦ inr (omega arith) ]) h
      ∙ ap (λ v. v % 2 ^ 8)
          (fill_frame s.memsz s.vaddr 0 mem (data' + s.offset + i)
            (elim a [ inl l ↦ inl (omega arith) | inr r ↦ inr (omega arith) ]));
  zeroed = λ i lo h.
      copy_frame s.filesz s.vaddr (data' + s.offset) (fill s.memsz s.vaddr 0 mem) (s.vaddr + i)
        (inr (omega arith))
      ∙ fill_inside s.memsz s.vaddr 0 mem i h;
}

-- A program header is read from its 56 bytes.
pub read_segment_same :
    (ph : ℕ) (m m' : Memory)
    → ((b : ℕ) → ph ≤ b → b < ph + 56 → m' b ≡ m b)
    → read_segment m' ph ≡ read_segment m ph
unfolding read_segment
read_segment_same ph m m' h =
    rw
      (
        read32_same m m' ph (λ b lo hi. h b lo (omega arith)),
        read64_same m m' (ph + 8) (λ b lo hi. h b (omega arith) (omega arith)),
        read64_same m m' (ph + 16) (λ b lo hi. h b (omega arith) (omega arith)),
        read64_same m m' (ph + 32) (λ b lo hi. h b (omega arith) (omega arith)),
        read64_same m m' (ph + 40) (λ b lo hi. h b (omega arith) (omega arith)),
      )
      refl
