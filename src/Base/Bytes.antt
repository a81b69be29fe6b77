-- ===== src/Base/Bytes.antt =====
-- One bit of a byte: `b | 1 << k`, `b & ~(1 << k)` and `(b >> k) & 1`, with their laws by tables.
use Prim.Native.Nat.{ℕ, zero, suc, ◌-◌, ◌/◌, ◌%◌, ◌^◌, ◌<◌, bit_and, bit_or}
use mathlib.Core.Path.{◌≡◌, refl}
use mathlib.Core.Bool.{Bool, true, false, ◌&&◌, ◌||◌, not}
use native.Mathlib.Omega.{arith}
use mathlib.Core.Logic.{inl, inr}
use gnuwindows.Base.Tests.{Bool-cases, ltb, ltb→lt, ◌==◌}

abbrev pub set_bit : ℕ → ℕ → ℕ
set_bit b k = bit_or b (2 ^ k)

abbrev pub clear_bit : ℕ → ℕ → ℕ
clear_bit b k = bit_and b (255 - 2 ^ k)

abbrev pub test_bit : ℕ → ℕ → Bool
test_bit b k = (b / 2 ^ k) % 2 == 1

-- `p` holds of the numbers below `n`, by evaluation.
check_to : (ℕ → Bool) → ℕ → Bool
check_to p zero = true
check_to p (suc n) = check_to p n && p n

check_to_at : (p : ℕ → Bool) (n : ℕ) {x : ℕ} → x < n → check_to p n ≡ true → p x ≡ true
unfolding check_to
check_to_at p zero lt all = absurd (omega arith)
check_to_at p (suc n) {x} lt all = elim (Bool-cases (x == n)) [
  | inl last ↦ ground arith
  | inr below ↦ check_to_at p n (ground arith) (ground arith)
]

same : Bool → Bool → Bool
same true b = b
same false b = not b

same_eq : (a b : Bool) → same a b ≡ true → a ≡ b
unfolding same
same_eq true b h = ground arith
same_eq false b h = ground arith

set_law : ℕ → ℕ → ℕ → Bool
set_law b k j = same (test_bit (set_bit b k) j) ((k == j) || test_bit b j) && ltb (set_bit b k) 256

clear_law : ℕ → ℕ → ℕ → Bool
clear_law b k j =
    same (test_bit (clear_bit b k) j) (not (k == j) && test_bit b j) && ltb (clear_bit b k) 256

for_bits : (ℕ → ℕ → ℕ → Bool) → Bool
for_bits law = check_to (λ b. check_to (λ k. check_to (λ j. law b k j) 8) 8) 256

set_table : for_bits set_law ≡ true
unfolding for_bits check_to set_law same
set_table = refl

clear_table : for_bits clear_law ≡ true
unfolding for_bits check_to clear_law same
clear_table = refl

law_at :
    (law : ℕ → ℕ → ℕ → Bool) (b k j : ℕ)
    → for_bits law ≡ true
    → b < 256
    → k < 8
    → j < 8
    → law b k j ≡ true
unfolding for_bits
law_at law b k j t hb hk hj =
    check_to_at (λ i. law b k i) 8 hj
      (check_to_at (λ i. check_to (law b i) 8) 8 hk
        (check_to_at (λ i. check_to (λ l. check_to (law i l) 8) 8) 256 hb t))

and_left : (a b : Bool) → (a && b) ≡ true → a ≡ true
and_left a b h = ground arith

and_right : (a b : Bool) → (a && b) ≡ true → b ≡ true
and_right a b h = ground arith

module _ (b k j : ℕ) (hb : b < 256) (hk : k < 8) (hj : j < 8) where
  pub test_bit-set_bit : test_bit (set_bit b k) j ≡ ((k == j) || test_bit b j)
  unfolding set_law
  test_bit-set_bit = same_eq _ _ (and_left _ _ (law_at set_law b k j set_table hb hk hj))

  pub test_bit-clear_bit : test_bit (clear_bit b k) j ≡ (not (k == j) && test_bit b j)
  unfolding clear_law
  test_bit-clear_bit = same_eq _ _ (and_left _ _ (law_at clear_law b k j clear_table hb hk hj))

module _ (b k : ℕ) (hb : b < 256) (hk : k < 8) where
  pub set_bit-lt : set_bit b k < 256
  unfolding set_law
  set_bit-lt = ltb→lt _ _ (
      and_right (same (test_bit (set_bit b k) 0) ((k == 0) || test_bit b 0)) _
        (law_at set_law b k 0 set_table hb hk (omega arith)))

  pub clear_bit-lt : clear_bit b k < 256
  unfolding clear_law
  clear_bit-lt = ltb→lt _ _ (
      and_right (same (test_bit (clear_bit b k) 0) (not (k == 0) && test_bit b 0)) _
        (law_at clear_law b k 0 clear_table hb hk (omega arith)))

full_table : check_to (test_bit 255) 8 ≡ true
unfolding check_to
full_table = refl

pub test_bit_full : (k : ℕ) → k < 8 → test_bit 255 k ≡ true
test_bit_full k h = check_to_at (test_bit 255) 8 h full_table
