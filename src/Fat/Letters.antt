-- ===== src/Fat/Letters.antt =====
-- kernel/fs/fat.c: the bytes that to_83 makes of a name.
use gnuwindows.Base.{
  ℕ, zero, suc, ◌<◌, inl, inr, ◌≡◌, ◌≢◌, refl, ap, Bool, Bool-cases, ◌==◌, ◌||◌, List, [], ◌∷◌,
  ◌++◌, length, length-append, get_or, arith,
}
use gnuwindows.Fat.Names.{upper, is_slash, take_chars, skip_dot, to_83}

-- every element is a byte
pub data AreBytes : List ℕ → Type 0 where
  no_byte : AreBytes []
  one_byte : {c : ℕ} {p : List ℕ} → c < 256 → AreBytes p → AreBytes (c ∷ p)

AreBytes-append : (p q : List ℕ) → AreBytes p → AreBytes q → AreBytes (p ++ q)
AreBytes-append [] q hp hq = hq
AreBytes-append (c ∷ p) q (one_byte h hp) hq = one_byte h (AreBytes-append p q hp hq)

upper-lt : (c : ℕ) → c < 256 → upper c < 256
upper-lt c h = ground arith

-- A part of a name has as many bytes as it should, and what follows it is made of bytes too.
record Taken (n : ℕ) (r : List ℕ × List ℕ) : Type 0 where
  full : length r.0 ≡ n
  front : AreBytes r.0
  behind : AreBytes r.1

Taken-cons : (n c : ℕ) (r : List ℕ × List ℕ) → c < 256 → Taken n r → Taken (suc n) (c ∷ r.0, r.1)
Taken-cons n c r h t = record {
  full = ap suc t.full;
  front = one_byte h t.front;
  behind = t.behind;
}

take_chars-Taken :
    (stop : ℕ → Bool) (n : ℕ) (a : List ℕ) → AreBytes a → Taken n (take_chars stop n a)
unfolding take_chars
take_chars-Taken stop zero a h = record { full = refl; front = no_byte; behind = h }
take_chars-Taken stop (suc n) [] h =
    let t = take_chars-Taken stop n [] no_byte in
    record { full = ap suc t.full; front = one_byte (omega arith) t.front; behind = no_byte }
take_chars-Taken stop (suc n) (c ∷ a) (one_byte b h) = elim (Bool-cases (stop c)) [
  | inl e ↦
      let t = take_chars-Taken stop n [] no_byte in
      rw e record {
        full = ap suc t.full;
        front = one_byte (omega arith) t.front;
        behind = one_byte b h;
      }
  | inr e ↦
      rw e
        (Taken-cons n (upper c) (take_chars stop n a) (upper-lt c b) (take_chars-Taken stop n a h))
]

skip_dot-AreBytes : (a : List ℕ) → AreBytes a → AreBytes (skip_dot a)
skip_dot-AreBytes [] h = h
skip_dot-AreBytes (c ∷ a) (one_byte b h) = elim (Bool-cases (c == b'.')) [
  | inl e ↦ rw e h
  | inr e ↦ rw e (one_byte b h)
]

module _ (a : List ℕ) (h : AreBytes a) where
  stem : List ℕ × List ℕ
  stem = take_chars (λ c. c == b'.' || is_slash c) 8 a

  stem-Taken : Taken 8 stem
  unfolding stem
  stem-Taken = take_chars-Taken (λ c. c == b'.' || is_slash c) 8 a h

  extension-Taken : Taken 3 (take_chars is_slash 3 (skip_dot stem.1))
  extension-Taken =
      take_chars-Taken is_slash 3 (skip_dot stem.1) (skip_dot-AreBytes stem.1 stem-Taken.behind)

  pub length-to_83 : length (to_83 a) ≡ 11
  unfolding to_83 stem
  length-to_83 = omega (
    arith,
    length-append stem.0 (take_chars is_slash 3 (skip_dot stem.1)).0,
    stem-Taken.full,
    extension-Taken.full,
  )

  pub to_83-AreBytes : AreBytes (to_83 a)
  unfolding to_83 stem
  to_83-AreBytes =
      AreBytes-append stem.0 (take_chars is_slash 3 (skip_dot stem.1)).0 stem-Taken.front
        extension-Taken.front

-- The first byte of a name in an entry marks no free entry.
pub to_83-first :
    (c : ℕ) (a : List ℕ)
    → c ≢ 0
    → c ≢ 0xE5
    → (get_or (to_83 (c ∷ a)) 0 0 ≢ 0) × (get_or (to_83 (c ∷ a)) 0 0 ≢ 0xE5)
unfolding to_83 take_chars
to_83-first c a h h' = elim (Bool-cases (c == b'.' || is_slash c)) [
  | inl e ↦ rw e ((λ z. absurd (omega (arith, z))), (λ z. absurd (omega (arith, z))))
  | inr e ↦ rw e ((λ z. ground arith), (λ z. ground arith))
]
