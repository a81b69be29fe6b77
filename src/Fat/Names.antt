-- ===== src/Fat/Names.antt =====
-- kernel/fs/fat.c: names of 8 and 3 characters.
use gnuwindows.Base.{
  ℕ, zero, suc, ◌+◌, ◌-◌, Bool, List, [], ◌∷◌, ◌++◌, ◌==◌, leb, if◌then◌else◌, ◌&&◌, ◌||◌, Memory,
  write8,
}
use gnuwindows.Vfs.Paths.{streq}

abbrev pub upper : ℕ → ℕ
upper c = if leb b'a' c && leb c b'z' then c - 32 else c

abbrev pub is_slash : ℕ → Bool
is_slash c = c == b'/' || c == b'\\'

-- The loop over one part of the name: at most so many characters, filled up with blanks, and what
-- follows them.
unfoldable pub take_chars : (ℕ → Bool) → ℕ → List ℕ → List ℕ × List ℕ
take_chars stop zero a = ([], a)
take_chars stop (suc n) [] = let r = take_chars stop n [] in (b' ' ∷ r.0, [])
take_chars stop (suc n) (c ∷ a) =
    let r = take_chars stop n a in
    let blank = take_chars stop n [] in
    if stop c then (b' ' ∷ blank.0, c ∷ a) else (upper c ∷ r.0, r.1)

abbrev pub skip_dot : List ℕ → List ℕ
skip_dot [] = []
skip_dot (c ∷ a) = if c == b'.' then a else c ∷ a

-- `to_83`: the 11 bytes of a name
unfoldable pub to_83 : List ℕ → List ℕ
to_83 a =
    let stem = take_chars (λ c. c == b'.' || is_slash c) 8 a in
    stem.0 ++ (take_chars is_slash 3 (skip_dot stem.1)).0

-- the `n` bytes from `at` on
unfoldable pub bytes_at : ℕ → ℕ → Memory → List ℕ
bytes_at zero at m = []
bytes_at (suc n) at m = m at ∷ bytes_at n (at + 1) m

-- `eq83` with the entry at `at`
unfoldable pub eq83 : List ℕ → ℕ → Memory → Bool
eq83 a at m = streq (to_83 a) (bytes_at 11 at m)

-- `memcpy_l(at, p, n)` of bytes
unfoldable pub put_bytes : ℕ → List ℕ → Memory → Memory
put_bytes at [] m = m
put_bytes at (c ∷ p) m = put_bytes (at + 1) p (write8 at c m)
