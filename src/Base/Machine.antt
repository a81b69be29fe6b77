-- ===== src/Base/Machine.antt =====
-- What several files of the kernel share: the result of a C function that returns 0 or -1, and
-- memory, a function from addresses to bytes, with little-endian reads and writes.
use Prim.Native.Nat.{ℕ, ◌+◌, ◌*◌, ◌/◌, ◌%◌, ◌^◌, ◌≤◌, ◌<◌}
use mathlib.Core.Path.{◌≡◌, ◌∙◌}
use mathlib.Core.Logic.{◌⊎◌}
use native.Mathlib.Omega.{arith}
use gnuwindows.Base.Tests.{◌==◌, if◌then◌else◌}

-- 0 and -1
pub data Status : Type 0 where
  ok fail : Status

abbrev pub Memory : Type 0
Memory = ℕ → ℕ

unfoldable pub read16 : Memory → ℕ → ℕ
read16 mem at = mem at + 2 ^ 8 * mem (at + 1)

unfoldable pub read32 : Memory → ℕ → ℕ
unfolding read16
read32 mem at = read16 mem at + 2 ^ 16 * read16 mem (at + 2)

unfoldable pub read64 : Memory → ℕ → ℕ
unfolding read32
read64 mem at = read32 mem at + 2 ^ 32 * read32 mem (at + 4)

unfoldable pub write8 : ℕ → ℕ → Memory → Memory
write8 at v mem a = if a == at then v % 2 ^ 8 else mem a

unfoldable pub write16 : ℕ → ℕ → Memory → Memory
unfolding write8
write16 at v mem = write8 (at + 1) (v / 2 ^ 8) (write8 at v mem)

unfoldable pub write32 : ℕ → ℕ → Memory → Memory
unfolding write16
write32 at v mem = write16 (at + 2) (v / 2 ^ 16) (write16 at v mem)

unfoldable pub write64 : ℕ → ℕ → Memory → Memory
unfolding write32
write64 at v mem = write32 (at + 4) (v / 2 ^ 32) (write32 at v mem)

-- `b` lies outside the `n` bytes from `a` on.
abbrev pub Outside : ℕ → ℕ → ℕ → Type 0
Outside a n b = (b < a) ⊎ (a + n ≤ b)

pub write8_at : (a v : ℕ) (mem : Memory) (b : ℕ) → b ≡ a → write8 a v mem b ≡ v % 2 ^ 8
unfolding write8
write8_at a v mem b e = ground arith

pub write8_frame : (a v : ℕ) (mem : Memory) (b : ℕ) → (b < a) ⊎ (a < b) → write8 a v mem b ≡ mem b
unfolding write8
write8_frame a v mem b o = ground arith

pub write16_frame : (at v : ℕ) (mem : Memory) (b : ℕ) → Outside at 2 b → write16 at v mem b ≡ mem b
unfolding write16
write16_frame at v mem b o = ground arith

pub write32_frame : (at v : ℕ) (mem : Memory) (b : ℕ) → Outside at 4 b → write32 at v mem b ≡ mem b
unfolding write32
write32_frame at v mem b o =
    write16_frame (at + 2) (v / 2 ^ 16) (write16 at v mem) b (ground arith)
    ∙ write16_frame at v mem b (ground arith)

pub write64_frame : (at v : ℕ) (mem : Memory) (b : ℕ) → Outside at 8 b → write64 at v mem b ≡ mem b
unfolding write64
write64_frame at v mem b o =
    write32_frame (at + 4) (v / 2 ^ 32) (write32 at v mem) b (ground arith)
    ∙ write32_frame at v mem b (ground arith)

pub read16-write16 : (at v : ℕ) (mem : Memory) → read16 (write16 at v mem) at ≡ v % 2 ^ 16
unfolding read16 write16
read16-write16 at v mem = ground arith

-- A read sees the bytes that it covers, and no other.
pub read16_same :
    (m m' : Memory) (at : ℕ)
    → ((b : ℕ) → at ≤ b → b < at + 2 → m' b ≡ m b)
    → read16 m' at ≡ read16 m at
unfolding read16
read16_same m m' at h = ground (arith, h at, h (at + 1))

pub read32_same :
    (m m' : Memory) (at : ℕ)
    → ((b : ℕ) → at ≤ b → b < at + 4 → m' b ≡ m b)
    → read32 m' at ≡ read32 m at
unfolding read32
read32_same m m' at h = ground (arith, h at, h (at + 1), h (at + 2), h (at + 3), h (at + 2 + 1))

pub read64_same :
    (m m' : Memory) (at : ℕ)
    → ((b : ℕ) → at ≤ b → b < at + 8 → m' b ≡ m b)
    → read64 m' at ≡ read64 m at
unfolding read64
read64_same m m' at h = omega (
  arith,
  read32_same m m' at (λ b lo hi. h b lo (omega arith)),
  read32_same m m' (at + 4) (λ b lo hi. h b (omega arith) (omega arith)),
)

pub read32-write32 : (at v : ℕ) (mem : Memory) → read32 (write32 at v mem) at ≡ v % 2 ^ 32
unfolding read32 write32
read32-write32 at v mem = omega (
  arith,
  read16-write16 (at + 2) (v / 2 ^ 16) (write16 at v mem),
  read16-write16 at v mem,
  read16_same (write16 at v mem) (write16 (at + 2) (v / 2 ^ 16) (write16 at v mem)) at
      (λ b lo hi. write16_frame (at + 2) (v / 2 ^ 16) (write16 at v mem) b (omega arith)),
)

pub read64-write64 : (at v : ℕ) (mem : Memory) → read64 (write64 at v mem) at ≡ v % 2 ^ 64
unfolding read64 write64
read64-write64 at v mem = omega (
  arith,
  read32-write32 (at + 4) (v / 2 ^ 32) (write32 at v mem),
  read32-write32 at v mem,
  read32_same (write32 at v mem) (write32 (at + 4) (v / 2 ^ 32) (write32 at v mem)) at
      (λ b lo hi. write32_frame (at + 4) (v / 2 ^ 32) (write32 at v mem) b (omega arith)),
)
