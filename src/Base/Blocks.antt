-- ===== src/Base/Blocks.antt =====
-- memset and memcpy, of which most files of the kernel have a copy of their own (memset_l, memcpy_l,
-- memset_local), and what they do to the bytes of memory.
use Prim.Native.Nat.{ℕ, zero, suc, ◌+◌, ◌%◌, ◌^◌, ◌≤◌, ◌<◌}
use mathlib.Core.Path.{◌≡◌, refl, ap, ◌∙◌}
use mathlib.Core.Logic.{◌⊎◌, inl, inr}
use native.Mathlib.Omega.{arith}
use gnuwindows.Base.Machine.{Memory, write8, write8_at, write8_frame, Outside}

-- `memset(d, c, n)`
unfoldable pub fill : ℕ → ℕ → ℕ → Memory → Memory
fill zero d c mem = mem
fill (suc n) d c mem = fill n (d + 1) c (write8 d c mem)

-- `memcpy(d, s, n)`, byte by byte from the front
unfoldable pub copy : ℕ → ℕ → ℕ → Memory → Memory
copy zero d s mem = mem
copy (suc n) d s mem = copy n (d + 1) (s + 1) (write8 d (mem s) mem)

-- The `n` bytes from `a` on and the `m` bytes from `b` on have none in common.
abbrev pub Apart : ℕ → ℕ → ℕ → ℕ → Type 0
Apart a n b m = (a + n ≤ b) ⊎ (b + m ≤ a)

base : (a : ℕ) → a ≡ a + 0
base a = omega arith

shift : (a i : ℕ) → a + suc i ≡ a + 1 + i
shift a i = omega arith

pub fill_frame : (n d c : ℕ) (mem : Memory) (b : ℕ) → Outside d n b → fill n d c mem b ≡ mem b
unfolding fill
fill_frame zero d c mem b o = refl
fill_frame (suc n) d c mem b (inl h) =
    fill_frame n (d + 1) c (write8 d c mem) b (inl (omega arith)) ∙ write8_frame d c mem b (inl h)
fill_frame (suc n) d c mem b (inr h) =
    fill_frame n (d + 1) c (write8 d c mem) b (inr (omega arith))
    ∙ write8_frame d c mem b (inr (omega arith))

pub fill_inside : (n d c : ℕ) (mem : Memory) (i : ℕ) → i < n → fill n d c mem (d + i) ≡ c % 2 ^ 8
unfolding fill
fill_inside zero d c mem i h = absurd (omega arith)
fill_inside (suc n) d c mem zero h =
    fill_frame n (d + 1) c (write8 d c mem) (d + 0) (inl (omega arith))
    ∙ write8_at d c mem (d + 0) (omega arith)
fill_inside (suc n) d c mem (suc i) h =
    rw (shift d i) (fill_inside n (d + 1) c (write8 d c mem) i (omega arith))

pub copy_frame : (n d s : ℕ) (mem : Memory) (b : ℕ) → Outside d n b → copy n d s mem b ≡ mem b
unfolding copy
copy_frame zero d s mem b o = refl
copy_frame (suc n) d s mem b (inl h) =
    copy_frame n (d + 1) (s + 1) (write8 d (mem s) mem) b (inl (omega arith))
    ∙ write8_frame d (mem s) mem b (inl h)
copy_frame (suc n) d s mem b (inr h) =
    copy_frame n (d + 1) (s + 1) (write8 d (mem s) mem) b (inr (omega arith))
    ∙ write8_frame d (mem s) mem b (inr (omega arith))

Apart-rest : (s n d : ℕ) → Apart s (suc n) d (suc n) → Apart (s + 1) n (d + 1) n
Apart-rest s n d (inl h) = inl (omega arith)
Apart-rest s n d (inr h) = inr (omega arith)

pub copy_inside :
    (n d s : ℕ) (mem : Memory) (i : ℕ)
    → Apart s n d n
    → i < n
    → copy n d s mem (d + i) ≡ mem (s + i) % 2 ^ 8
unfolding copy
copy_inside zero d s mem i a h = absurd (omega arith)
copy_inside (suc n) d s mem zero a h =
    copy_frame n (d + 1) (s + 1) (write8 d (mem s) mem) (d + 0) (inl (omega arith))
    ∙ write8_at d (mem s) mem (d + 0) (omega arith)
    ∙ ap (λ a. mem a % 2 ^ 8) (base s)
copy_inside (suc n) d s mem (suc i) a h =
    rw (shift d i, shift s i)
      (copy_inside n (d + 1) (s + 1) (write8 d (mem s) mem) i (Apart-rest s n d a) (omega arith)
        ∙ ap (λ v. v % 2 ^ 8)
            (write8_frame d (mem s) mem (s + 1 + i)
              (elim a [ inl l ↦ inl (omega arith) | inr r ↦ inr (omega arith) ])))
