-- ===== src/Elf/Rounds.antt =====
-- kernel/process/elf.c: the second loop of `elf_load` on a file that no segment is written over. It
-- reads `e_phnum` in every round, and finds what stood there at first.
use mathlib.Core.Path.{subst}
use gnuwindows.Base.{
  ℕ, zero, suc, ◌+◌, ◌*◌, ◌≤◌, ◌<◌, ◌≡◌, refl, sym, ap, ◌∙◌, Bool, true, false, inl, inr, arith,
  Bool-cases, Memory, ltb, read16_same, read64_same,
}
use gnuwindows.Elf.Load.{
  Header, segment_size, read_header, read_segment, is_load, load_segment, segment_outside,
  load_loop,
}
use gnuwindows.Elf.Copy.{read_segment_same}
use gnuwindows.Elf.Segments.{
  segments, Loads, Same, Harmless, Same-load_segment, load_table, load_table_skip, load_table_load,
  load_table_stop,
}

pub read_header-Same :
    (data' size : ℕ) (m0 m : Memory)
    → 58 ≤ size
    → Same data' size m0 m
    → read_header m data' ≡ read_header m0 data'
unfolding read_header
read_header-Same data' size m0 m big h =
    let k = λ (b : ℕ) (lo : data' ≤ b) (hi : b < data' + 58). h b lo (omega arith) in
    rw
      (
        read16_same m0 m (data' + 16) (λ b lo hi. k b (omega arith) (omega arith)),
        read16_same m0 m (data' + 18) (λ b lo hi. k b (omega arith) (omega arith)),
        read64_same m0 m (data' + 24) (λ b lo hi. k b (omega arith) (omega arith)),
        read64_same m0 m (data' + 32) (λ b lo hi. k b (omega arith) (omega arith)),
        read16_same m0 m (data' + 54) (λ b lo hi. k b (omega arith) (omega arith)),
        read16_same m0 m (data' + 56) (λ b lo hi. k b (omega arith) (omega arith)),
      )
      refl

module _ (data' size : ℕ) where
  round_end :
      (fuel i ph : ℕ) (m : Memory)
      → ltb i (read_header m data').phnum ≡ false
      → load_loop data' size fuel i ph m ≡ (true, m)
  unfolding load_loop
  round_end zero i ph m e = refl
  round_end (suc fuel) i ph m e = rw (e, load_loop) refl

  round_skip :
      (fuel i ph : ℕ) (m : Memory)
      → ltb i (read_header m data').phnum ≡ true
      → is_load (read_segment m ph) ≡ false
      → load_loop data' size (suc fuel) i ph m
        ≡ load_loop data' size fuel (i + 1) (ph + segment_size) m
  unfolding load_loop
  round_skip fuel i ph m t e = rw (t, e, load_loop) refl

  round_stop :
      (fuel i ph : ℕ) (m : Memory)
      → ltb i (read_header m data').phnum ≡ true
      → is_load (read_segment m ph) ≡ true
      → segment_outside (read_segment m ph) size ≡ true
      → load_loop data' size (suc fuel) i ph m ≡ (false, m)
  unfolding load_loop
  round_stop fuel i ph m t e o = rw (t, e, load_loop, o) refl

  round_load :
      (fuel i ph : ℕ) (m : Memory)
      → ltb i (read_header m data').phnum ≡ true
      → is_load (read_segment m ph) ≡ true
      → segment_outside (read_segment m ph) size ≡ false
      → load_loop data' size (suc fuel) i ph m
        ≡ load_loop data' size fuel
            (i + 1)
            (ph + segment_size)
            (load_segment data' (read_segment m ph) m)
  unfolding load_loop
  round_load fuel i ph m t e o = rw (t, e, load_loop, o) refl

-- The loop over a table that lies in the file is the load of its entries, and the file stays.
pub record Rounds (data' size : ℕ) (m0 : Memory) (r r' : Bool × Memory) : Type 0 where
  pub same_result : r ≡ r'
  pub kept : Same data' size m0 r'.1

Rounds-step :
    {data' size : ℕ} {m0 : Memory} {r r' u u' : Bool × Memory}
    → r ≡ u
    → r' ≡ u'
    → Rounds data' size m0 u u'
    → Rounds data' size m0 r r'
Rounds-step {data'} {size} {m0} p q x = record {
  same_result = p ∙ x.same_result ∙ sym q;
  kept = subst (λ z. Same data' size m0 z.1) (sym q) x.kept;
}

pub load_loop-load_table :
    (data' size : ℕ) (m0 : Memory) (n fuel i ph : ℕ) (m : Memory)
    → 58 ≤ size
    → i + n ≡ (read_header m0 data').phnum
    → n ≤ fuel
    → data' ≤ ph
    → ph + n * segment_size ≤ data' + size
    → Same data' size m0 m
    → Loads (Harmless data' size) (segments n ph m0)
    → Rounds data' size m0 (load_loop data' size fuel i ph m) (load_table data' size n ph m)
unfolding load_table
load_loop-load_table data' size m0 zero fuel i ph m big count f lo hi h harmless =
    let e = ap (λ (x : Header). x.phnum) (read_header-Same data' size m0 m big h) in
    record { same_result = round_end data' size fuel i ph m (ground arith); kept = h }
load_loop-load_table data' size m0 (suc n) zero i ph m big count f lo hi h harmless =
    absurd (omega arith)
load_loop-load_table data' size m0 (suc n) (suc fuel) i ph m big count f lo hi h (first, rest) =
    let s = read_segment m ph in
    let q = read_segment_same ph m0 m (λ b bl bh. h b (omega arith) (omega arith)) in
    let e = ap (λ (x : Header). x.phnum) (read_header-Same data' size m0 m big h) in
    let t : ltb i (read_header m data').phnum ≡ true = ground arith in
    elim (Bool-cases (is_load s)) [
      | inr k ↦
          let next =
            load_loop-load_table data' size m0 n fuel (i + 1) (ph + segment_size) m big
              (omega arith) (omega arith) (omega arith) (omega arith) h rest in
          let e1 = round_skip data' size fuel i ph m t k in
          let e2 = load_table_skip data' size n ph m s refl k in Rounds-step e1 e2 next
      | inl k ↦ elim (Bool-cases (segment_outside s size)) [
        | inl o ↦
            let e1 = round_stop data' size fuel i ph m t k o in
            let e2 = load_table_stop data' size n ph m s refl k o in
            Rounds-step e1 e2 (record { same_result = refl; kept = h })
        | inr o ↦
            let harm : Harmless data' size s =
              subst (Harmless data' size) (sym q) (first (ap is_load (sym q) ∙ k)) in
            let next =
              load_loop-load_table data' size m0 n fuel (i + 1) (ph + segment_size)
                (load_segment data' s m) big (omega arith) (omega arith) (omega arith) (omega arith)
                (Same-load_segment data' size m0 m s harm.in_segment harm.apart h) rest in
            let e1 = round_load data' size fuel i ph m t k o in
            let e2 = load_table_load data' size n ph m s refl k o in Rounds-step e1 e2 next
      ]
    ]
