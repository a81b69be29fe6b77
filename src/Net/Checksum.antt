-- ===== src/Net/Checksum.antt =====
-- kernel/net/net.c: ip_checksum, over a list of bytes.
use gnuwindows.Base.{ℕ, zero, suc, ◌+◌, ◌-◌, ◌*◌, ◌/◌, ◌%◌, ◌^◌, List, [], ◌∷◌, ◌==◌, if◌then◌else◌}

-- `(p[0] << 8) | p[1]` of two bytes
abbrev pub be16 : ℕ → ℕ → ℕ
be16 b c = b * 2 ^ 8 + c

-- the sum of the words, as a `uint32_t`; an odd last byte is the upper half of a word
unfoldable pub sum_words : List ℕ → ℕ → ℕ
sum_words [] sum = sum
sum_words (b ∷ []) sum = (sum + be16 b 0) % 2 ^ 32
sum_words (b ∷ c ∷ p) sum = sum_words p ((sum + be16 b c) % 2 ^ 32)

-- `while (sum >> 16) sum = (sum & 0xFFFF) + (sum >> 16)`, for so many rounds at most
unfoldable pub fold : ℕ → ℕ → ℕ
fold zero sum = sum
fold (suc n) sum =
    let rest = fold n (sum % 2 ^ 16 + sum / 2 ^ 16) in if sum / 2 ^ 16 == 0 then sum else rest

-- Two rounds bring a `uint32_t` below 2 ^ 16.
unfoldable pub ip_checksum : List ℕ → ℕ
ip_checksum p = 2 ^ 16 - 1 - fold 2 (sum_words p 0)
