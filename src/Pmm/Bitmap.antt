-- ===== src/Pmm/Bitmap.antt =====
-- kernel/mm/pmm.c: `pmm_bitmap` and its three inline functions. The array is a function from the
-- index of a byte to the byte; `bitmap_*` guard the index, so no access leaves the array.
use gnuwindows.Base.{
  ℕ, ◌*◌, ◌/◌, ◌%◌, ◌<◌, ◌≤◌, ◌≡◌, Bool, true, arith, leb, ◌==◌, if◌then◌else◌, set_bit, clear_bit,
  test_bit, test_bit-set_bit, test_bit-clear_bit, set_bit-lt, clear_bit-lt,
}

abbrev pub Bitmap : Type 0
Bitmap = ℕ → ℕ

-- `PMM_MAX_PAGES`, 4 GiB of pages of `PAGE_SIZE` bytes
abbrev pub max_pages : ℕ
max_pages = 1024 * 1024

store : Bitmap → ℕ → ℕ → Bitmap
store m i v j = if i == j then v else m j

unfoldable pub bitmap_set : Bitmap → ℕ → Bitmap
unfolding store
bitmap_set m page =
    if leb max_pages page then m else store m (page / 8) (set_bit (m (page / 8)) (page % 8))

unfoldable pub bitmap_clear : Bitmap → ℕ → Bitmap
unfolding store
bitmap_clear m page =
    if leb max_pages page then m else store m (page / 8) (clear_bit (m (page / 8)) (page % 8))

-- out of range counts as used
unfoldable pub bitmap_test : Bitmap → ℕ → Bool
bitmap_test m page = if leb max_pages page then true else test_bit (m (page / 8)) (page % 8)

-- Every entry of the array is a `uint8_t`.
abbrev pub IsBytes : Bitmap → Type 0
IsBytes m = (i : ℕ) → m i < 256

pub bitmap_set-IsBytes : (m : Bitmap) (p : ℕ) → IsBytes m → IsBytes (bitmap_set m p)
unfolding bitmap_set
bitmap_set-IsBytes m p h i =
    ground (arith, set_bit-lt (m (p / 8)) (p % 8) (h (p / 8)) (omega arith), h i)

pub bitmap_clear-IsBytes : (m : Bitmap) (p : ℕ) → IsBytes m → IsBytes (bitmap_clear m p)
unfolding bitmap_clear
bitmap_clear-IsBytes m p h i =
    ground (arith, clear_bit-lt (m (p / 8)) (p % 8) (h (p / 8)) (omega arith), h i)

-- `page / 8` and `page % 8` together tell pages apart.
same_page : (p q : ℕ) → p / 8 ≡ q / 8 → p % 8 ≡ q % 8 → p ≡ q
same_page p q h k = omega arith

-- Setting a page's bit makes it used and leaves every other page as it was.
pub test-set :
    (m : Bitmap) (p q : ℕ)
    → IsBytes m
    → bitmap_test (bitmap_set m p) q ≡ (if p == q then true else bitmap_test m q)
unfolding bitmap_set bitmap_test
test-set m p q h =
    ground (arith, test_bit-set_bit (m (p / 8)) (p % 8) (q % 8) (h (p / 8)), same_page p q)

-- Clearing a page's bit makes it free if the bitmap has it, and leaves every other page as it was.
pub test-clear :
    (m : Bitmap) (p q : ℕ)
    → IsBytes m
    → bitmap_test (bitmap_clear m p) q ≡ (if p == q then leb max_pages p else bitmap_test m q)
unfolding bitmap_clear bitmap_test
test-clear m p q h =
    ground (arith, test_bit-clear_bit (m (p / 8)) (p % 8) (q % 8) (h (p / 8)), same_page p q)

-- A page beyond the bitmap counts as used.
pub test_out : (m : Bitmap) (p : ℕ) → max_pages ≤ p → bitmap_test m p ≡ true
unfolding bitmap_test
test_out m p h = ground arith
