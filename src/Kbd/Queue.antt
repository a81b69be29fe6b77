-- ===== src/Kbd/Queue.antt =====
-- kernel/drivers/kbd.c: the ring of characters is a queue of at most 63.
use gnuwindows.Base.{
  ℕ, zero, suc, ◌+◌, ◌-◌, ◌%◌, ◌<◌, inl, inr, ◌≡◌, refl, sym, ap, ◌∙◌, true, false, Bool-cases,
  Option, none, some, List, [], ◌∷◌, ◌++◌, ◌==◌, if◌then◌else◌, length, arith,
}
use gnuwindows.Kbd.Keys.{kbuf, Kbd, push, kbd_getc_nonblock}

-- `n` characters of the ring from `t` on
unfoldable pub chars : ℕ → ℕ → (ℕ → ℕ) → List ℕ
chars zero t b = []
chars (suc n) t b = b t ∷ chars n ((t + 1) % kbuf) b

abbrev pub count : Kbd → ℕ
count s = (s.head + kbuf - s.tail) % kbuf

abbrev pub waiting : Kbd → List ℕ
waiting s = chars (count s) s.tail s.buf

pub record InRing (s : Kbd) : Type 0 where
  pub head-lt : s.head < kbuf
  pub tail-lt : s.tail < kbuf

-- A character is put in, or one is asked for.
pub data Call : Type 0 where
  puts : ℕ → Call
  gets : Call

abbrev pub next : Call → Kbd → Option ℕ × Kbd
next (puts c) s = (none, push c s)
next gets s = kbd_getc_nonblock s

-- what the calls return
unfoldable pub returns : List Call → Kbd → List (Option ℕ)
returns [] s = []
returns (a ∷ calls) s = (next a s).0 ∷ returns calls (next a s).1

-- the queue that is promised
abbrev pub queue_next : Call → List ℕ → Option ℕ × List ℕ
queue_next (puts c) q = (none, if length q == 63 then q else q ++ (c ∷ []))
queue_next gets [] = (none, [])
queue_next gets (c ∷ q) = (some (c % 256), q)

unfoldable pub queue_returns : List Call → List ℕ → List (Option ℕ)
queue_returns [] q = []
queue_returns (a ∷ calls) q = (queue_next a q).0 ∷ queue_returns calls (queue_next a q).1

length-chars : (n t : ℕ) (b : ℕ → ℕ) → length (chars n t b) ≡ n
unfolding chars
length-chars zero t b = refl
length-chars (suc n) t b = ap suc (length-chars n ((t + 1) % kbuf) b)

chars_same :
    (n t : ℕ) (b b' : ℕ → ℕ)
    → t < kbuf
    → ((i : ℕ) → i < n → b' ((t + i) % kbuf) ≡ b ((t + i) % kbuf))
    → chars n t b' ≡ chars n t b
unfolding chars
chars_same zero t b b' h same = refl
chars_same (suc n) t b b' h same =
    let here : (t + 0) % kbuf ≡ t = omega arith in
    let first : b' t ≡ b t = rw here at (same 0 (omega arith)) in
    rw first (
      ap (λ q. b t ∷ q)
        (chars_same n ((t + 1) % kbuf) b b' (omega arith) (λ i hi.
          let e : ((t + 1) % kbuf + i) % kbuf ≡ (t + suc i) % kbuf = omega arith in
          rw e (same (suc i) (omega arith)))))

chars_snoc :
    (n t : ℕ) (b : ℕ → ℕ) → t < kbuf → chars (suc n) t b ≡ chars n t b ++ (b ((t + n) % kbuf) ∷ [])
unfolding chars
chars_snoc zero t b h = let here : (t + 0) % kbuf ≡ t = omega arith in ap (λ x. b x ∷ []) (sym here)
chars_snoc (suc n) t b h =
    let e : ((t + 1) % kbuf + n) % kbuf ≡ (t + suc n) % kbuf = omega arith in
    ap (λ q. b t ∷ q)
      (chars_snoc n ((t + 1) % kbuf) b (omega arith)
        ∙ ap (λ x. chars n ((t + 1) % kbuf) b ++ (b x ∷ [])) e)

-- a call does to the characters that wait what it does to the queue
pub record Agrees (a : Call) (s : Kbd) : Type 0 where
  pub in_ring : InRing (next a s).1
  pub same_return : (next a s).0 ≡ (queue_next a (waiting s)).0
  pub same_queue : waiting (next a s).1 ≡ (queue_next a (waiting s)).1

module _ (s : Kbd) (r : InRing s) where
  push-full : (c : ℕ) → ((s.head + 1) % kbuf == s.tail) ≡ true → Agrees (puts c) s
  unfolding push
  push-full c e =
      let full : (length (waiting s) == 63) ≡ true =
        rw (length-chars (count s) s.tail s.buf) (ground (arith, r.head-lt, r.tail-lt)) in
      record { in_ring = rw (e, push) r; same_return = refl; same_queue = rw (e, full) refl }

  push-room : (c : ℕ) → ((s.head + 1) % kbuf == s.tail) ≡ false → Agrees (puts c) s
  unfolding push
  push-room c e =
      let room : (length (waiting s) == 63) ≡ false =
        rw (length-chars (count s) s.tail s.buf) (ground (arith, r.head-lt, r.tail-lt)) in
      let b : ℕ → ℕ = λ i. if i == s.head then c else s.buf i in
      let more : ((s.head + 1) % kbuf + kbuf - s.tail) % kbuf ≡ suc (count s) =
        ground (arith, r.head-lt, r.tail-lt) in
      let end_at : (s.tail + count s) % kbuf ≡ s.head = omega (arith, r.head-lt, r.tail-lt) in
      let last : b s.head ≡ c = ground arith in
      let before = chars_same (count s) s.tail s.buf b r.tail-lt (λ i hi.
        let other : ((s.tail + i) % kbuf == s.head) ≡ false =
          ground (arith, r.head-lt, r.tail-lt) in
        rw other refl) in
      record {
        in_ring = rw (e, push) record { head-lt = omega arith; tail-lt = r.tail-lt };
        same_return = refl;
        same_queue =
            rw (e, room)
              (ap (λ n. chars n s.tail b) more
                ∙ chars_snoc (count s) s.tail b r.tail-lt
                ∙ ap (λ q. q ++ (b ((s.tail + count s) % kbuf) ∷ [])) before
                ∙ ap (λ x. waiting s ++ (b x ∷ [])) end_at
                ∙ ap (λ x. waiting s ++ (x ∷ [])) last);
      }

  gets-empty : (s.head == s.tail) ≡ true → Agrees gets s
  unfolding kbd_getc_nonblock chars
  gets-empty e =
      let none_left : count s ≡ 0 = ground (arith, r.head-lt, r.tail-lt) in
      record {
        in_ring = rw (e, kbd_getc_nonblock) r;
        same_return = rw (e, none_left, chars) refl;
        same_queue = rw (e, none_left, chars) refl;
      }

  gets-first : (s.head == s.tail) ≡ false → Agrees gets s
  unfolding kbd_getc_nonblock chars
  gets-first e =
      let fewer : (s.head + kbuf - (s.tail + 1) % kbuf) % kbuf ≡ count s - 1 =
        ground (arith, r.head-lt, r.tail-lt) in
      let more : count s ≡ suc (count s - 1) = ground (arith, r.head-lt, r.tail-lt) in
      let front : waiting s ≡ s.buf s.tail ∷ chars (count s - 1) ((s.tail + 1) % kbuf) s.buf =
        ap (λ n. chars n s.tail s.buf) more in
      record {
        in_ring = rw (e, kbd_getc_nonblock) record { head-lt = r.head-lt; tail-lt = omega arith };
        same_return = rw (front, e) refl;
        same_queue = rw (front, e) (ap (λ n. chars n ((s.tail + 1) % kbuf) s.buf) fewer);
      }

  next-Agrees : (a : Call) → Agrees a s
  next-Agrees (puts c) = elim (Bool-cases ((s.head + 1) % kbuf == s.tail)) [
    | inl e ↦ push-full c e
    | inr e ↦ push-room c e
  ]
  next-Agrees gets = elim (Bool-cases (s.head == s.tail)) [
    | inl e ↦ gets-empty e
    | inr e ↦ gets-first e
  ]

-- On a ring whose ends lie in it, whatever characters are put in and asked for, the calls return what a queue of at most 63
-- characters returns, which drops what it has no room for.
pub returns-queue_returns :
    (calls : List Call) (s : Kbd) → InRing s → returns calls s ≡ queue_returns calls (waiting s)
unfolding returns queue_returns
returns-queue_returns [] s r = refl
returns-queue_returns (a ∷ calls) s r =
    let g = next-Agrees s r a in
    rw (sym g.same_return, sym g.same_queue)
      (ap (λ q. (next a s).0 ∷ q) (returns-queue_returns calls (next a s).1 g.in_ring))
