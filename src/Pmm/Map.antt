-- ===== src/Pmm/Map.antt =====
-- kernel/mm/pmm.c: what `pmm_init` makes of the memory map, and the state that it leaves.
use gnuwindows.Base.{
  ℕ, zero, suc, ◌+◌, ◌-◌, ◌*◌, ◌≤◌, ◌<◌, ◌≡◌, refl, Bool, true, false, arith, ltb, leb, not, ◌&&◌,
  ◌||◌, Bool-cases, inl, inr, Memory,
}
use gnuwindows.Pmm.Bitmap.{
  Bitmap, IsBytes, max_pages, bitmap_test, bitmap_clear-IsBytes, test-clear, test_out,
}
use gnuwindows.Pmm.Pages.{Pmm}
use gnuwindows.Pmm.Run.{in_run}
use gnuwindows.Pmm.Boot.{
  Descriptor, descriptor, is_usable, clear_pages, start_page, last_page, add_descriptor, read_map,
}

-- Page `q` belongs to the usable memory that the descriptor announces.
abbrev pub covers : Descriptor → ℕ → Bool
covers d q = is_usable d.kind && (leb (start_page d) q && ltb q (last_page d))

-- One of the `k` descriptors from `at` on covers page `q`.
unfoldable pub covered : Memory → ℕ → ℕ → ℕ → ℕ → Bool
covered mem desc_size zero at q = false
covered mem desc_size (suc k) at q =
    covers (descriptor mem at) q || covered mem desc_size k (at + desc_size) q

-- While the map is read, no page at or above `highest_page` is free.
pub record Reading (hit : ℕ → Bool) (s t : Pmm) : Type 0 where
  pub bytes : IsBytes t.bitmap
  pub pages : (q : ℕ) → bitmap_test t.bitmap q ≡ (not (hit q) && bitmap_test s.bitmap q)
  pub above : (q : ℕ) → t.highest_page ≤ q → bitmap_test t.bitmap q ≡ true

clear_pages-IsBytes : (n p : ℕ) {m : Bitmap} → IsBytes m → IsBytes (clear_pages n p m)
unfolding clear_pages
clear_pages-IsBytes zero p b = b
clear_pages-IsBytes (suc n) p {m} b = elim (Bool-cases (bitmap_test m p)) [
  | inl e ↦ rw e (clear_pages-IsBytes n (p + 1) (bitmap_clear-IsBytes m p b))
  | inr e ↦ rw e (clear_pages-IsBytes n (p + 1) b)
]

clear_pages_lem :
    (n p q : ℕ) {m : Bitmap}
    → IsBytes m
    → p + n ≤ max_pages
    → bitmap_test (clear_pages n p m) q ≡ (not (in_run p n q) && bitmap_test m q)
unfolding clear_pages
clear_pages_lem zero p q b h = ground arith
clear_pages_lem (suc n) p q {m} b h = elim (Bool-cases (bitmap_test m p)) [
  | inl e ↦ rw e (
      ground (
        arith,
        clear_pages_lem n (p + 1) q (bitmap_clear-IsBytes m p b) (omega arith),
        test-clear m p q b,
      ))
  | inr e ↦ rw e (ground (arith, clear_pages_lem n (p + 1) q b (omega arith)))
]

add_descriptor-Reading :
    {s : Pmm} (d : Descriptor)
    → IsBytes s.bitmap
    → ((q : ℕ) → s.highest_page ≤ q → bitmap_test s.bitmap q ≡ true)
    → Reading (λ q. covers d q) s (add_descriptor d s)
unfolding add_descriptor
add_descriptor-Reading {s} d b up =
    let n = last_page d - start_page d in
    let test = λ (q : ℕ). clear_pages_lem n (start_page d) q b in
    elim (Bool-cases (is_usable d.kind && ltb (start_page d) max_pages)) [
      | inl e ↦ rw e (record {
        bytes = clear_pages-IsBytes n (start_page d) b;
        pages = λ q. ground (arith, test q);
        above = λ q h. ground (arith, test q, up q);
      })
      | inr e ↦ rw e (record {
        bytes = b;
        pages = λ q. ground (arith, test_out s.bitmap q);
        above = λ q h. ground (arith, up q);
      })
    ]

Reading-trans :
    {f g : ℕ → Bool} {s t u : Pmm} → Reading f s t → Reading g t u → Reading (λ q. f q || g q) s u
Reading-trans a c = record {
  bytes = c.bytes;
  pages = λ q. ground (arith, a.pages q, c.pages q);
  above = c.above;
}

module _ (mem : Memory) (end desc_size : ℕ) (pos : 0 < desc_size) where
  -- The loop over the memory map ends because no whole descriptor is left, if it is given a round
  -- for each byte of the map.
  pub read_map-ends :
      (fuel at : ℕ) (s : Pmm)
      → end < at + fuel
      → end < (read_map mem fuel at end desc_size s).0 + desc_size
  unfolding read_map
  read_map-ends zero at s h = omega arith
  read_map-ends (suc fuel) at s h = elim (Bool-cases (leb (at + desc_size) end)) [
    | inl more ↦
        rw (more, read_map)
          (read_map-ends fuel (at + desc_size) (add_descriptor (descriptor mem at) s) (omega arith))
    | inr done ↦ rw (done, read_map) (ground arith)
  ]

  pub read_map-Reading :
      (fuel k at : ℕ) {s : Pmm}
      → at + k * desc_size ≤ end
      → end < at + suc k * desc_size
      → k < fuel
      → IsBytes s.bitmap
      → ((q : ℕ) → s.highest_page ≤ q → bitmap_test s.bitmap q ≡ true)
      → Reading (λ q. covered mem desc_size k at q) s (read_map mem fuel at end desc_size s).1
  unfolding read_map covered
  read_map-Reading zero k at lo hi h b up = absurd (omega arith)
  read_map-Reading (suc fuel) zero at lo hi h b up =
      let done : leb (at + desc_size) end ≡ false = ground arith in
      rw (done, read_map) (record { bytes = b; pages = λ q. refl; above = up })
  read_map-Reading (suc fuel) (suc k) at {s} lo hi h b up =
      let more : leb (at + desc_size) end ≡ true = ground arith in
      let f = add_descriptor-Reading (descriptor mem at) b up in
      rw (more, read_map)
        (Reading-trans f (
          read_map-Reading fuel k (at + desc_size) (omega arith) (omega arith) (omega arith) f.bytes
            f.above))
