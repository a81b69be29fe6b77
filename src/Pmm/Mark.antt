-- ===== src/Pmm/Mark.antt =====
-- kernel/mm/pmm.c: `mark_range_used` makes the pages of a range used and changes no other page.
use gnuwindows.Base.{
  ℕ, zero, suc, ◌+◌, ◌-◌, ◌≡◌, refl, ◌∙◌, Bool, false, arith, ltb, leb, ◌==◌, not, ◌&&◌, ◌||◌,
  Bool-cases, inl, inr,
}
use gnuwindows.Pmm.Bitmap.{IsBytes, bitmap_test, bitmap_set-IsBytes, test-set}
use gnuwindows.Pmm.Pages.{Pmm, range_start, range_end, take_page, mark_page, mark_pages, mark_used}
use gnuwindows.Pmm.Run.{in_run}

-- Page `q` meets the bytes from `phys` up to `phys + size`.
abbrev pub in_range : ℕ → ℕ → ℕ → Bool
in_range phys size q = not (size == 0) && (leb (range_start phys) q && ltb q (range_end phys size))

-- `t` is `s` with the pages of `hit` used as well.
pub record Marked (hit : ℕ → Bool) (s t : Pmm) : Type 0 where
  pub bytes : IsBytes t.bitmap
  pub pages : (q : ℕ) → bitmap_test t.bitmap q ≡ (hit q || bitmap_test s.bitmap q)
  pub highest : t.highest_page ≡ s.highest_page

pub Marked-none : {s : Pmm} → IsBytes s.bitmap → Marked (λ q. false) s s
Marked-none b = record { bytes = b; pages = λ q. refl; highest = refl }

pub Marked-trans :
    {f g : ℕ → Bool} {s t u : Pmm} → Marked f s t → Marked g t u → Marked (λ q. f q || g q) s u
Marked-trans a b = record {
  bytes = b.bytes;
  pages = λ q. ground (arith, a.pages q, b.pages q);
  highest = b.highest ∙ a.highest;
}

mark_page-Marked : {s : Pmm} (p : ℕ) → IsBytes s.bitmap → Marked (λ q. p == q) s (mark_page p s)
unfolding mark_page take_page
mark_page-Marked {s} p b = elim (Bool-cases (bitmap_test s.bitmap p)) [
  | inl old ↦ rw old (record { bytes = b; pages = λ q. ground arith; highest = refl })
  | inr new ↦ rw new (record {
    bytes = bitmap_set-IsBytes s.bitmap p b;
    pages = λ q. ground (arith, test-set s.bitmap p q b);
    highest = refl;
  })
]

mark_pages-Marked :
    (n p : ℕ) {s : Pmm} → IsBytes s.bitmap → Marked (λ q. in_run p n q) s (mark_pages n p s)
unfolding mark_pages
mark_pages-Marked zero p b = record { bytes = b; pages = λ q. ground arith; highest = refl }
mark_pages-Marked (suc n) p {s} b =
    let f = mark_page-Marked p b in
    let g = mark_pages-Marked n (p + 1) f.bytes in
    record {
      bytes = g.bytes;
      pages = λ q. ground (arith, f.pages q, g.pages q);
      highest = g.highest ∙ f.highest;
    }

-- `mark_range_used` makes used the pages that meet the range, and no other.
pub mark_used-Marked :
    {s : Pmm} (phys size : ℕ)
    → IsBytes s.bitmap
    → Marked (λ q. in_range phys size q) s (mark_used phys size s)
unfolding mark_used
mark_used-Marked {s} phys size b = elim (Bool-cases (size == 0)) [
  | inl e ↦ rw (e, mark_used) (Marked-none b)
  | inr e ↦
      let g = mark_pages-Marked (range_end phys size - range_start phys) (range_start phys) b in
      rw (e, mark_used)
        (record { bytes = g.bytes; pages = λ q. ground (arith, g.pages q); highest = g.highest })
]
