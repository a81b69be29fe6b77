-- ===== src/Elf/Segments.antt =====
-- kernel/process/elf.c: the two loops over the program headers of a well-formed file.
use gnuwindows.Base.{
  Apart, ℕ, zero, suc, ◌+◌, ◌*◌, ◌%◌, ◌^◌, ◌≤◌, ◌<◌, ◌≡◌, refl, sym, ap, ◌∙◌, Bool, true, false,
  inl, inr, List, [], ◌∷◌, arith, Bool-cases, Memory, Outside,
}
use mathlib.Core.Path.{subst}
use gnuwindows.Elf.Load.{
  Segment, word, segment_size, read_segment, is_load, load_segment, segment_outside,
}
use gnuwindows.Elf.Copy.{Image, load_segment_frame, load_segment-Image, read_segment_same}

-- the entries of a table of `n` program headers at `ph`
abbrev pub segments : ℕ → ℕ → Memory → List Segment
segments zero ph mem = []
segments (suc n) ph mem = read_segment mem ph ∷ segments n (ph + segment_size) mem

-- `P` holds of every PT_LOAD entry.
abbrev pub Loads : (Segment → Type 0) → List Segment → Type 0
Loads P [] = Unit {0}
Loads P (s ∷ l) = (is_load s ≡ true → P s) × Loads P l

-- The file holds the segment's bytes, and its destination lies off the file and in the address
-- space.
pub record Fits (data' size : ℕ) (s : Segment) : Type 0 where
  pub in_file : s.offset + s.filesz ≤ size
  pub in_segment : s.filesz ≤ s.memsz
  pub in_space : s.vaddr + s.memsz < word
  pub apart : Apart data' size s.vaddr s.memsz

-- No two PT_LOAD entries have a byte of memory in common.
abbrev pub Spread : List Segment → Type 0
Spread [] = Unit {0}
Spread (s ∷ l) =
    (is_load s ≡ true → Loads (λ t. Apart s.vaddr s.memsz t.vaddr t.memsz) l) × Spread l

-- `b` is no byte of a PT_LOAD entry.
abbrev pub Unloaded : ℕ → List Segment → Type 0
Unloaded b l = Loads (λ s. Outside s.vaddr s.memsz b) l

pub Loads-map :
    {P Q : Segment → Type 0} (l : List Segment)
    → ((s : Segment) → P s → Q s)
    → Loads P l
    → Loads Q l
Loads-map [] f p = tt
Loads-map (s ∷ l) f (p, ps) = (λ h. f s (p h), Loads-map l f ps)

-- The load of the `n` program headers at `ph`, up to the first one that the test finds outside.
unfoldable pub load_table : ℕ → ℕ → ℕ → ℕ → Memory → Bool × Memory
load_table data' size zero ph mem = (true, mem)
load_table data' size (suc n) ph mem =
    let s = read_segment mem ph in
    elim (is_load s) [
      | false ↦ load_table data' size n (ph + segment_size) mem
      | true ↦ elim (segment_outside s size) [
        | true ↦ (false, mem)
        | false ↦ load_table data' size n (ph + segment_size) (load_segment data' s mem)
      ]
    ]

-- What `load_table` makes of the memory `m`, when the file in it is that of `m0`.
pub record Result (data' : ℕ) (m0 m : Memory) (l : List Segment) (r : Bool × Memory) : Type 0 where
  pub complete : r.0 ≡ true
  pub images : Loads (λ s. Image data' m0 s r.1) l
  pub others : (b : ℕ) → Unloaded b l → r.1 b ≡ m b

-- The file of `size` bytes at `data` is the same in both memories.
abbrev pub Same : ℕ → ℕ → Memory → Memory → Type 0
Same data' size m0 m = (b : ℕ) → data' ≤ b → b < data' + size → m b ≡ m0 b

pub Same-load_segment :
    (data' size : ℕ) (m0 m : Memory) (s : Segment)
    → s.filesz ≤ s.memsz
    → Apart data' size s.vaddr s.memsz
    → Same data' size m0 m
    → Same data' size m0 (load_segment data' s m)
Same-load_segment data' size m0 m s le a h b lo hi =
    load_segment_frame data' s m b le
      (elim a [ inl l ↦ inl (omega arith) | inr r ↦ inr (omega arith) ])
    ∙ h b lo hi

segment_outside-Fits :
    (data' size : ℕ) (s : Segment)
    → size < word
    → Fits data' size s
    → segment_outside s size ≡ false
unfolding segment_outside
segment_outside-Fits data' size s w f = ground (arith, f.in_file)

Image-keep :
    (data' size : ℕ) (m0 m : Memory) (s : Segment) (m' : Memory)
    → Fits data' size s
    → Same data' size m0 m
    → ((b : ℕ) → s.vaddr ≤ b → b < s.vaddr + s.memsz → m' b ≡ load_segment data' s m b)
    → Image data' m0 s m'
Image-keep data' size m0 m s m' f h k =
    let i = load_segment-Image data' size s m f.in_segment f.in_file f.apart in
    record {
      from_file = λ j lt.
          k (s.vaddr + j) (omega arith) (omega (arith, f.in_segment))
          ∙ i.from_file j lt
          ∙ ap (λ v. v % 2 ^ 8) (h (data' + s.offset + j) (omega arith) (omega (arith, f.in_file)));
      zeroed = λ j lo lt. k (s.vaddr + j) (omega arith) (omega arith) ∙ i.zeroed j lo lt;
    }

Unloaded-Apart :
    (s : Segment) (b : ℕ) (l : List Segment)
    → s.vaddr ≤ b
    → b < s.vaddr + s.memsz
    → Loads (λ t. Apart s.vaddr s.memsz t.vaddr t.memsz) l
    → Unloaded b l
Unloaded-Apart s b l lo hi =
    Loads-map l λ t a. elim a [ inl h ↦ inl (omega arith) | inr h ↦ inr (omega arith) ]

-- The load of `s` does not write to the file.
pub record Harmless (data' size : ℕ) (s : Segment) : Type 0 where
  pub in_segment : s.filesz ≤ s.memsz
  pub apart : Apart data' size s.vaddr s.memsz

-- One round of `load_table` over the program header `s`, which the current memory holds at `ph`.
pub load_table_skip :
    (data' size n ph : ℕ) (m : Memory) (s : Segment)
    → read_segment m ph ≡ s
    → is_load s ≡ false
    → load_table data' size (suc n) ph m ≡ load_table data' size n (ph + segment_size) m
unfolding load_table
load_table_skip data' size n ph m s q e = rw (q, e, load_table) refl

pub load_table_load :
    (data' size n ph : ℕ) (m : Memory) (s : Segment)
    → read_segment m ph ≡ s
    → is_load s ≡ true
    → segment_outside s size ≡ false
    → load_table data' size (suc n) ph m
      ≡ load_table data' size n (ph + segment_size) (load_segment data' s m)
unfolding load_table
load_table_load data' size n ph m s q e o =
    rw (q, e, load_table, q, o)
      (ap (λ t. load_table data' size n (ph + segment_size) (load_segment data' t m)) q)

pub load_table_stop :
    (data' size n ph : ℕ) (m : Memory) (s : Segment)
    → read_segment m ph ≡ s
    → is_load s ≡ true
    → segment_outside s size ≡ true
    → load_table data' size (suc n) ph m ≡ (false, m)
unfolding load_table
load_table_stop data' size n ph m s q e o = rw (q, e, load_table, q, o) refl

Result-skip :
    (data' : ℕ) (m0 m : Memory) (s : Segment) (l : List Segment) (r : Bool × Memory)
    → is_load s ≡ false
    → Result data' m0 m l r
    → Result data' m0 m (s ∷ l) r
Result-skip data' m0 m s l r e i = record {
  complete = i.complete;
  images = (λ h. absurd (cc (h, e)), i.images);
  others = λ b u. i.others b u.1;
}

Result-load :
    (data' size : ℕ) (m0 m : Memory) (s : Segment) (l : List Segment) (r : Bool × Memory)
    → is_load s ≡ true
    → Fits data' size s
    → Same data' size m0 m
    → Loads (λ t. Apart s.vaddr s.memsz t.vaddr t.memsz) l
    → Result data' m0 (load_segment data' s m) l r
    → Result data' m0 m (s ∷ l) r
Result-load data' size m0 m s l r e f h a i = record {
  complete = i.complete;
  images = (
    λ t. Image-keep data' size m0 m s r.1 f h λ b lo hi. i.others b (Unloaded-Apart s b l lo hi a),
    i.images,
  );
  others = λ b u. i.others b u.1 ∙ load_segment_frame data' s m b f.in_segment (u.0 e);
}

pub load_table-Result :
    (data' size : ℕ) (m0 : Memory) (n ph : ℕ) (m : Memory)
    → size < word
    → data' ≤ ph
    → ph + n * segment_size ≤ data' + size
    → Same data' size m0 m
    → Loads (Fits data' size) (segments n ph m0)
    → Spread (segments n ph m0)
    → Result data' m0 m (segments n ph m0) (load_table data' size n ph m)
unfolding load_table
load_table-Result data' size m0 zero ph m w lo hi h fits spread = record {
  complete = refl;
  images = tt;
  others = λ b u. refl;
}
load_table-Result data' size m0 (suc n) ph m w lo hi h (fit, fits) (apart, spread) =
    let s = read_segment m0 ph in
    let l = segments n (ph + segment_size) m0 in
    let q = read_segment_same ph m0 m (λ b bl bh. h b (omega arith) (omega arith)) in
    elim (Bool-cases (is_load s)) [
      | inr e ↦ subst (Result data' m0 m (s ∷ l)) (sym (load_table_skip data' size n ph m s q e)) (
          Result-skip data' m0 m s l (load_table data' size n (ph + segment_size) m) e (
            load_table-Result data' size m0 n (ph + segment_size) m w (omega arith) (omega arith) h
              fits spread))
      | inl e ↦
          subst (Result data' m0 m (s ∷ l))
            (sym (
              load_table_load data' size n ph m s q e
                (segment_outside-Fits data' size s w (fit e))))
            (Result-load data' size m0 m s l
              (load_table data' size n (ph + segment_size) (load_segment data' s m)) e (fit e) h
              (apart e)
              (load_table-Result data' size m0 n (ph + segment_size) (load_segment data' s m) w
                (omega arith) (omega arith)
                (Same-load_segment data' size m0 m s (fit e).in_segment (fit e).apart h) fits
                spread))
    ]
