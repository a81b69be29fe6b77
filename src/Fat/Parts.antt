-- ===== src/Fat/Parts.antt =====
-- kernel/fs/fat.c: the bytes that are read of a cluster are the first of those that it was given.
use gnuwindows.Base.{
  take-add, take_none, leb, ℕ, zero, suc, ◌+◌, ◌-◌, min, ◌≤◌, ◌<◌, ◌≡◌, refl, sym, ap, ◌∙◌, inl,
  inr, true, false, Bool-cases, ◌==◌, List, [], ◌∷◌, ◌++◌, length, length-append, length-take,
  length-drop, take, drop, get_or, arith,
}
use mathlib.Core.List.{append_assoc, append-nil}
use gnuwindows.Fat.Names.{bytes_at}
use gnuwindows.Fat.Chain.{
  sector_size, chunk, after_chunk, sector_of, sector_bytes, left_after, is_empty,
}
use gnuwindows.Fat.Sectors.{rest_after, part, empty_length}

suc_one : (i : ℕ) → suc (i + 1) ≡ suc i + 1
suc_one i = omega arith

drop_get : (i : ℕ) (bs : List ℕ) → i < length bs → drop i bs ≡ get_or bs i 0 ∷ drop (i + 1) bs
drop_get i [] h = absurd (omega arith)
drop_get zero (b ∷ bs) h = refl
drop_get (suc i) (b ∷ bs) h =
    drop_get i bs (omega arith) ∙ ap (λ k. get_or bs i 0 ∷ drop k (b ∷ bs)) (suc_one i)

bytes_at-sector_of :
    (n i : ℕ) (bs : List ℕ) → i + n ≤ length bs → bytes_at n i (sector_of bs) ≡ take n (drop i bs)
unfolding bytes_at sector_of
bytes_at-sector_of zero i bs h = refl
bytes_at-sector_of (suc n) i bs h =
    rw (drop_get i bs (omega arith))
      (ap (λ q. get_or bs i 0 ∷ q) (bytes_at-sector_of n (i + 1) bs (omega arith)))

take-take : (n m : ℕ) (p : List ℕ) → n ≤ m → take n (take m p) ≡ take n p
take-take zero m p h = refl
take-take (suc n) zero p h = absurd (omega arith)
take-take (suc n) (suc m) [] h = refl
take-take (suc n) (suc m) (b ∷ p) h = ap (λ q. b ∷ q) (take-take n m p (omega arith))

take_split :
    (m left : ℕ) (p : List ℕ) → take (min m left) p ++ take (left - m) (drop m p) ≡ take left p
take_split m left p = elim (Bool-cases (leb left m)) [
  | inl e ↦
      let all : min m left ≡ left = ground arith in
      let none_left : left - m ≡ 0 = ground arith in rw (all, none_left) (append-nil (take left p))
  | inr e ↦
      let full : min m left ≡ m = ground arith in
      let sum : m + (left - m) ≡ left = ground arith in
      rw full (take-add m (left - m) p ∙ ap (λ k. take k p) sum)
]

-- the bytes of one sector
sector_bytes-chunk :
    (left : ℕ) (src : List ℕ)
    → left ≤ length src
    → sector_bytes left (sector_of (chunk src)) ≡ take (min sector_size left) src
unfolding sector_bytes chunk
sector_bytes-chunk left src h =
    bytes_at-sector_of (min sector_size left) 0 (take sector_size src)
      (omega (arith, length-take sector_size src))
    ∙ take-take (min sector_size left) sector_size src (omega arith)

split_sector :
    (left : ℕ) (src : List ℕ)
    → left ≤ length src
    → sector_bytes left (sector_of (chunk src)) ++ take (left_after left) (after_chunk src)
      ≡ take left src
unfolding left_after after_chunk
split_sector left src h = rw (sector_bytes-chunk left src h) (take_split sector_size left src)

nothing_after :
    (left : ℕ) (src : List ℕ)
    → left ≤ length src
    → is_empty (after_chunk src) ≡ true
    → left_after left ≡ 0
unfolding left_after after_chunk
nothing_after left src h e =
    omega (arith, length-drop sector_size src, empty_length (drop sector_size src) e)

left_after-bound :
    (left : ℕ) (src : List ℕ) → left ≤ length src → left_after left ≤ length (after_chunk src)
unfolding left_after after_chunk
left_after-bound left src h = omega (arith, length-drop sector_size src)

length-sector :
    (left : ℕ) (src : List ℕ)
    → left ≤ length src
    → length (sector_bytes left (sector_of (chunk src))) + left_after left ≡ left
unfolding left_after
length-sector left src h =
    rw (sector_bytes-chunk left src h) (omega (arith, length-take (min sector_size left) src))

left_after_lt : (left : ℕ) → 0 < left → left_after left < left
unfolding left_after
left_after_lt left h = omega arith

part_nothing : (n : ℕ) (src : List ℕ) → part n 0 src ≡ []
unfolding part
part_nothing zero src = refl
part_nothing (suc n) src = refl

p_none :
    (n left : ℕ) (src : List ℕ)
    → left_after left ≡ 0
    → part n (left_after left) (after_chunk src) ≡ []
p_none n left src z = rw z (part_nothing n (after_chunk src))

minus_none : (left : ℕ) → left - 0 ≡ left
minus_none left = omega arith

-- The part of a cluster, and what is wanted of the rest, are the bytes that are wanted.
pub part-take :
    (n left : ℕ) (src : List ℕ)
    → left ≤ length src
    → part n left src ++ take (left - length (part n left src)) (rest_after n src) ≡ take left src
unfolding part rest_after
part-take zero left src h = ap (λ j. take j src) (minus_none left)
part-take (suc n) left src h = elim (Bool-cases (left == 0)) [
  | inl z ↦ let zero_left : left ≡ 0 = ground arith in rw zero_left refl
  | inr more ↦
      let a = sector_bytes left (sector_of (chunk src)) in
      let p = part n (left_after left) (after_chunk src) in
      elim (Bool-cases (is_empty (after_chunk src))) [
        | inl e ↦
            let z = nothing_after left src h e in
            rw (more, e)
              (ap (λ q. (a ++ q) ++ take (left - length (a ++ p)) []) (p_none n left src z)
                ∙ ap (λ q. (a ++ []) ++ q) (take_none (left - length (a ++ p)))
                ∙ append-nil (a ++ [])
                ∙ ap (λ j. a ++ take j (after_chunk src)) (sym z)
                ∙ split_sector left src h)
        | inr e ↦
            let la = length-sector left src h in
            let next =
              part-take n (left_after left) (after_chunk src) (left_after-bound left src h) in
            let same : left - length (a ++ p) ≡ left_after left - length p =
              omega (arith, la, length-append a p) in
            rw (more, e)
              (rw same (
                append_assoc a p
                  (take (left_after left - length p) (rest_after n (after_chunk src)))
                ∙ ap (λ q. a ++ q) next
                ∙ split_sector left src h))
      ]
]

pub part_pos :
    (n left : ℕ) (src : List ℕ) → 0 < left → left ≤ length src → 0 < length (part (suc n) left src)
unfolding part
part_pos n left src pos h =
    let more : (left == 0) ≡ false = ground arith in
    let a = sector_bytes left (sector_of (chunk src)) in
    rw more (
      omega (
        arith,
        length-append a (part n (left_after left) (after_chunk src)),
        length-sector left src h,
        left_after_lt left pos,
      ))

after_chunk-lt : (src : List ℕ) → length (after_chunk src) ≤ length src - 512
unfolding after_chunk
after_chunk-lt src = omega (arith, length-drop sector_size src)

rest_after-le : (n : ℕ) (src : List ℕ) → length (rest_after n src) ≤ length src
unfolding rest_after
rest_after-le zero src = omega arith
rest_after-le (suc n) src = elim (Bool-cases (is_empty (after_chunk src))) [
  | inl e ↦ rw e (omega arith)
  | inr e ↦ rw e (omega (arith, rest_after-le n (after_chunk src), after_chunk-lt src))
]

-- A cluster takes a byte at least.
pub rest_after-lt :
    (n : ℕ) (src : List ℕ) → 0 < length src → length (rest_after (suc n) src) < length src
unfolding rest_after
rest_after-lt n src pos = elim (Bool-cases (is_empty (after_chunk src))) [
  | inl e ↦ rw e (omega arith)
  | inr e ↦ rw e (omega (arith, rest_after-le n (after_chunk src), after_chunk-lt src))
]
