-- ===== src/Net/Dotted.antt =====
-- kernel/net/dns.c: parse_ip reads an address as it is written.
use gnuwindows.Base.{
  ℕ, suc, ◌+◌, ◌*◌, ◌/◌, ◌%◌, ◌<◌, ◌≡◌, refl, sym, ap, inl, inr, Bool-cases, ◌∙◌, true, some,
  some_inv, ◌>>=◌, List, [], ◌∷◌, ltb, if◌then◌else◌, arith,
}
use gnuwindows.Net.Frames.{Ip}
use gnuwindows.Net.Packets.{IsIp}
use gnuwindows.Net.Dns.{is_digit, parse_part, parse_parts, four_parts, parse_ip}

-- a number below 256 as dns_resolve and the shell write it, before a text
unfoldable pub dec : ℕ → List ℕ → List ℕ
dec v p =
    if ltb v 10
    then (48 + v) ∷ p
    else if ltb v 100
    then (48 + v / 10) ∷ (48 + v % 10) ∷ p
    else (48 + v / 100) ∷ (48 + v / 10 % 10) ∷ (48 + v % 10) ∷ p

unfoldable pub dotted : Ip → List ℕ
dotted a = dec a.i0 (46 ∷ dec a.i1 (46 ∷ dec a.i2 (46 ∷ dec a.i3 [])))

parse_part_end : (v : ℕ) (p : List ℕ) → parse_part v (46 ∷ p) ≡ some (v, 46 ∷ p)
unfolding parse_part
parse_part_end v p = refl

parse_part_stop : (v : ℕ) → parse_part v [] ≡ some (v, [])
unfolding parse_part
parse_part_stop v = refl

-- one digit
parse_part_digit :
    (v d : ℕ) (p : List ℕ)
    → d < 10
    → v * 10 + d < 256
    → parse_part v ((48 + d) ∷ p) ≡ parse_part (v * 10 + d) p
unfolding parse_part
parse_part_digit v d p hd hv = ground arith

parse_part-dec :
    (v : ℕ) (p : List ℕ)
    → v < 256
    → parse_part v p ≡ some (v, p)
    → parse_part 0 (dec v p) ≡ some (v, p)
unfolding dec
parse_part-dec v p h e = ground (
  arith,
  parse_part_digit 0 v p,
  parse_part_digit 0 (v / 10) ((48 + v % 10) ∷ p),
  parse_part_digit (v / 10) (v % 10) p,
  parse_part_digit 0 (v / 100) ((48 + v / 10 % 10) ∷ (48 + v % 10) ∷ p),
  parse_part_digit (v / 100) (v / 10 % 10) ((48 + v % 10) ∷ p),
)

dec_digit :
    (v : ℕ) (p : List ℕ)
    → v < 256
    → (c : ℕ) × (q : List ℕ) × (dec v p ≡ c ∷ q) × (is_digit c ≡ true)
unfolding dec
dec_digit v p h = elim (Bool-cases (ltb v 10)) [
  | inl e ↦ rw e (48 + v, p, refl, ground arith)
  | inr e ↦ rw e (elim (Bool-cases (ltb v 100)) [
    | inl f ↦ rw f (48 + v / 10, (48 + v % 10) ∷ p, refl, ground arith)
    | inr f ↦ rw f (48 + v / 100, (48 + v / 10 % 10) ∷ (48 + v % 10) ∷ p, refl, ground arith)
  ])
]

parts_more :
    (k v : ℕ) (p q : List ℕ)
    → v < 256
    → p ≡ dec v (46 ∷ q)
    → parse_parts (suc k) p ≡ parse_parts k q >>= (λ s. some (v ∷ s.0, s.1))
unfolding parse_parts
parts_more k v p q h e =
    let (c, r, f, d) = dec_digit v (46 ∷ q) h in
    let g : parse_part 0 (c ∷ r) ≡ some (v, 46 ∷ q) =
      ap (parse_part 0) (sym f) ∙ parse_part-dec v (46 ∷ q) h (parse_part_end v q) in
    rw (e ∙ f) (rw (d, g) refl)

parts_last :
    (k v : ℕ) (p : List ℕ) → v < 256 → p ≡ dec v [] → parse_parts (suc k) p ≡ some (v ∷ [], [])
unfolding parse_parts
parts_last k v p h e =
    let (c, r, f, d) = dec_digit v [] h in
    let g : parse_part 0 (c ∷ r) ≡ some (v, []) =
      ap (parse_part 0) (sym f) ∙ parse_part-dec v [] h (parse_part_stop v) in
    rw (e ∙ f) (rw (d, g) refl)

no_parts : parse_parts 4 [] ≡ some ([], [])
unfolding parse_parts
no_parts = refl

parse_ip_start :
    (p : List ℕ) (s : List ℕ × List ℕ) → parse_parts 4 p ≡ some s → parse_ip p ≡ four_parts s
unfolding parse_ip
parse_ip_start [] s e = ap four_parts (some_inv (sym no_parts ∙ e))
parse_ip_start (c ∷ p) s e = rw e refl

-- parse_ip of the four numbers of an address, with a '.' between them, is the address.
pub parse_ip-dotted : (a : Ip) → IsIp a → parse_ip (dotted a) ≡ some a
unfolding dotted
parse_ip-dotted a h =
    parse_ip_start (dotted a) (a.i0 ∷ a.i1 ∷ a.i2 ∷ a.i3 ∷ [], [])
      (rw
        (
          parts_more 3 a.i0 _ (dec a.i1 (46 ∷ dec a.i2 (46 ∷ dec a.i3 []))) h.i0-lt refl,
          parts_more 2 a.i1 _ (dec a.i2 (46 ∷ dec a.i3 [])) h.i1-lt refl,
          parts_more 1 a.i2 _ (dec a.i3 []) h.i2-lt refl,
          parts_last 0 a.i3 _ h.i3-lt refl,
        )
        refl)
