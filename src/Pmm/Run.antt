-- ===== src/Pmm/Run.antt =====
-- kernel/mm/pmm.c: runs of free pages, as `pmm_alloc_pages` looks for them, and what taking a
-- whole run does.
use gnuwindows.Base.{
  ℕ, zero, suc, ◌+◌, ◌≤◌, ◌<◌, ◌≡◌, refl, Bool, true, false, arith, ltb, leb, ◌==◌, not, ◌&&◌, ◌||◌,
  Bool-cases, inl, inr, ◌∙◌,
}
use gnuwindows.Pmm.Bitmap.{Bitmap, IsBytes, bitmap_set, bitmap_test, test-set}
use gnuwindows.Pmm.Pages.{Pmm, take_page, take_run}
use gnuwindows.Pmm.Count.{IsValid, used-take_page, take_page-IsValid}

-- the `n` pages from `a` on are free
unfoldable pub is_free_run : Bitmap → ℕ → ℕ → Bool
is_free_run m a zero = true
is_free_run m a (suc n) = not (bitmap_test m a) && is_free_run m (a + 1) n

-- A used page spoils every run that holds it.
pub run_hit :
    (m : Bitmap) (q b n : ℕ)
    → bitmap_test m q ≡ true
    → b ≤ q
    → q < b + n
    → is_free_run m b n ≡ false
unfolding is_free_run
run_hit m q b zero h lo hi = absurd (omega arith)
run_hit m q b (suc n) h lo hi = elim (Bool-cases (b == q)) [
  | inl e ↦ ground arith
  | inr e ↦ ground (arith, run_hit m q (b + 1) n h)
]

pub run_extend :
    (m : Bitmap) (a n : ℕ)
    → is_free_run m a n ≡ true
    → bitmap_test m (a + n) ≡ false
    → is_free_run m a (suc n) ≡ true
unfolding is_free_run
run_extend m a zero h f = ground arith
run_extend m a (suc n) h f = ground (arith, run_extend m (a + 1) n)

run-set :
    (m : Bitmap) (p a n : ℕ)
    → IsBytes m
    → p < a
    → is_free_run (bitmap_set m p) a n ≡ is_free_run m a n
unfolding is_free_run
run-set m p a zero b lt = refl
run-set m p a (suc n) b lt = ground (arith, test-set m p a b, run-set m p (a + 1) n b)

-- Page `q` is one of the `n` pages from `a` on.
abbrev pub in_run : ℕ → ℕ → ℕ → Bool
in_run a n q = leb a q && ltb q (a + n)

-- Each page of a free run is free.
pub run_page :
    (m : Bitmap) (a n q : ℕ)
    → is_free_run m a n ≡ true
    → in_run a n q ≡ true
    → bitmap_test m q ≡ false
unfolding is_free_run
run_page m a zero q h i = absurd (ground arith)
run_page m a (suc n) q h i = elim (Bool-cases (a == q)) [
  | inl e ↦ ground arith
  | inr e ↦ ground (arith, run_page m (a + 1) n q)
]

-- What a state becomes when the pages of a run are taken: these are used, no other page changes,
-- and the counters say so.
pub record Taken (a n : ℕ) (s t : Pmm) : Type 0 where
  pub pages : (q : ℕ) → bitmap_test t.bitmap q ≡ (in_run a n q || bitmap_test s.bitmap q)
  pub used : t.used ≡ s.used + n
  pub highest : t.highest_page ≡ s.highest_page
  pub total : t.total ≡ s.total
  pub ready : t.ready ≡ s.ready

pub take_page-Taken :
    {s : Pmm} (p : ℕ) → IsValid s → bitmap_test s.bitmap p ≡ false → Taken p 1 s (take_page p s)
unfolding take_page
take_page-Taken {s} p v f = record {
  pages = λ q. ground (arith, test-set s.bitmap p q v.bytes);
  used = used-take_page p v f;
  highest = refl;
  total = refl;
  ready = refl;
}

Taken-step : {s t u : Pmm} (a n : ℕ) → Taken a 1 s t → Taken (a + 1) n t u → Taken a (suc n) s u
Taken-step {s} {t} {u} a n f g = record {
  pages = λ q. ground (arith, f.pages q, g.pages q);
  used = omega (arith, f.used, g.used);
  highest = g.highest ∙ f.highest;
  total = g.total ∙ f.total;
  ready = g.ready ∙ f.ready;
}

pub take_run-Taken :
    (n a : ℕ) {s : Pmm}
    → IsValid s
    → is_free_run s.bitmap a n ≡ true
    → Taken a n s (take_run n a s) × IsValid (take_run n a s)
unfolding take_run is_free_run take_page
take_run-Taken zero a {s} v h = (
  record {
    pages = λ q. ground arith;
    used = omega arith;
    highest = refl;
    total = refl;
    ready = refl;
  },
  v,
)
take_run-Taken (suc n) a {s} v h =
    let free : bitmap_test s.bitmap a ≡ false = ground arith in
    let rest : is_free_run (bitmap_set s.bitmap a) (a + 1) n ≡ true =
      ground (arith, run-set s.bitmap a (a + 1) n v.bytes) in
    let (t, w) = take_run-Taken n (a + 1) (take_page-IsValid a v free) rest in
    (Taken-step a n (take_page-Taken a v free) t, w)
