-- ===== src/Net/Sums.antt =====
-- kernel/net/net.c: the checksum of a packet in which it is stored.
use gnuwindows.Base.{ℕ, ◌+◌, ◌*◌, ◌%◌, ◌^◌, ◌≤◌, ◌<◌, ◌⊎◌, ◌≡◌, refl, List, [], ◌∷◌, length, arith}
use gnuwindows.Net.Checksum.{be16, sum_words, fold, ip_checksum}

abbrev pub AllBytes : List ℕ → Type 0
AllBytes [] = Unit {0}
AllBytes (b ∷ p) = (b < 2 ^ 8) × AllBytes p

-- the sum of the words as a number
unfoldable pub total : List ℕ → ℕ
total [] = 0
total (b ∷ []) = be16 b 0
total (b ∷ c ∷ p) = be16 b c + total p

sum_words-total : (p : List ℕ) (s : ℕ) → s < 2 ^ 32 → sum_words p s ≡ (s + total p) % 2 ^ 32
unfolding sum_words total
sum_words-total [] s h = omega arith
sum_words-total (b ∷ []) s h = refl
sum_words-total (b ∷ c ∷ p) s h =
    omega (arith, sum_words-total p ((s + be16 b c) % 2 ^ 32) (omega arith))

total-bound : (p : List ℕ) → AllBytes p → total p ≤ 2 ^ 16 * length p
unfolding total
total-bound [] a = omega arith
total-bound (b ∷ []) a = omega (arith, a.0)
total-bound (b ∷ c ∷ p) a = omega (arith, a.0, a.1.0, total-bound p a.1.1)

-- The loop of ip_checksum ends after two rounds at most: what is left is below 2 ^ 16, is the same
-- number modulo 2 ^ 16 - 1, is no larger, and is 0 for 0 only.
pub fold_lem :
    (s : ℕ)
    → s < 2 ^ 32
    → (fold 2 s < 2 ^ 16)
      × (fold 2 s % 65535 ≡ s % 65535)
      × ((s ≡ 0) ⊎ (0 < fold 2 s))
      × (fold 2 s ≤ s)
unfolding fold
fold_lem s h = (ground arith, ground arith, ground arith, ground arith)

sum-lt : (p : List ℕ) → sum_words p 0 < 2 ^ 32
sum-lt p = omega (arith, sum_words-total p 0 (omega arith))

-- a packet `q` that is `p` with its checksum stored in it
pub checksum_stored :
    (p q : List ℕ)
    → AllBytes p
    → length p < 2 ^ 15
    → length q ≡ length p
    → AllBytes q
    → total q ≡ total p + ip_checksum p
    → ip_checksum q ≡ 0
unfolding ip_checksum
checksum_stored p q bp lp lq bq e = omega (
  arith,
  sum_words-total p 0 (omega arith),
  sum_words-total q 0 (omega arith),
  total-bound p bp,
  total-bound q bq,
  fold_lem (sum_words p 0) (sum-lt p),
  fold_lem (sum_words q 0) (sum-lt q),
)
