-- ===== src/Kbd/Keys.antt =====
-- kernel/drivers/kbd.c: scan codes, the ring of characters and the interrupt. The controller behind
-- the two ports comes as a record `Ports`, whose state is a `P`.
use gnuwindows.Base.{
  ℕ, zero, suc, ◌+◌, ◌-◌, ◌%◌, Bool, false, Option, none, some, List, [], ◌∷◌, ◌++◌, ◌==◌, leb,
  if◌then◌else◌, ◌&&◌, ◌||◌, not, get_or, text,
}

abbrev pub kbuf : ℕ
kbuf = 64

pub record Kbd : Type 0 where
  pub buf : ℕ → ℕ
  pub head : ℕ
  pub tail : ℕ
  pub shift : Bool
  pub caps : Bool
  pub ctrl : Bool

-- a read of KBD_STAT, and one of KBD_DATA
pub record Ports (P : Type 0) : Type 0 where
  pub status : P → ℕ × P
  pub data_byte : P → ℕ × P

-- The rest of both tables is 0.
unfoldable pub key_map : List ℕ
key_map =
    (0 ∷ 27 ∷ text "1234567890-=")
    ++ (8 ∷ 9 ∷ text "qwertyuiop[]")
    ++ (10 ∷ 0 ∷ text "asdfghjkl;'`")
    ++ (0 ∷ b'\\' ∷ text "zxcvbnm,./")
    ++ (0 ∷ b'*' ∷ 0 ∷ b' ' ∷ [])

unfoldable pub map_shift : List ℕ
map_shift =
    (0 ∷ 27 ∷ text "!@#$%^&*()_+")
    ++ (8 ∷ 9 ∷ text "QWERTYUIOP{}")
    ++ (10 ∷ 0 ∷ text "ASDFGHJKL:\"~")
    ++ (0 ∷ b'|' ∷ text "ZXCVBNM<>?")
    ++ (0 ∷ b'*' ∷ 0 ∷ b' ' ∷ [])

unfoldable pub push : ℕ → Kbd → Kbd
push c s =
    let n = (s.head + 1) % kbuf in
    if n == s.tail then s else record s { buf = λ i. if i == s.head then c else s.buf i; head = n }

abbrev pub is_lower : ℕ → Bool
is_lower c = leb b'a' c && leb c b'z'

abbrev pub is_upper : ℕ → Bool
is_upper c = leb b'A' c && leb c b'Z'

-- the character of a key
unfoldable pub key_char : ℕ → Bool → Bool → ℕ
key_char sc shift caps =
    let up = if caps then not shift else shift in
    let c = if up then get_or map_shift sc 0 else get_or key_map sc 0 in
    let d = if is_lower c && (caps && not shift) then c - 32 else c in
    if is_upper d && (caps && shift) then d + 32 else d

-- a key that is pressed
unfoldable pub on_press : ℕ → Kbd → Kbd
on_press sc s =
    let c = key_char sc s.shift s.caps in
    if s.ctrl && sc == 0x2E then push 3 s else if c == 0 then s else push c s

-- a byte from the keyboard: bit 7 is set when a key is released
unfoldable pub on_byte : ℕ → Kbd → Kbd
on_byte byte s =
    let release = leb 128 byte in
    let sc = byte % 128 in
    if byte == 0xE0
    then s
    else if sc == 0x2A || sc == 0x36
    then record s { shift = not release }
    else if sc == 0x1D
    then record s { ctrl = not release }
    else if sc == 0x3A && not release
    then record s { caps = not s.caps }
    else if release
    then s
    else on_press sc s

unfoldable pub kbd_getc_nonblock : Kbd → Option ℕ × Kbd
kbd_getc_nonblock s =
    if s.head == s.tail
    then (none, s)
    else (some (s.buf s.tail % 256), record s { tail = (s.tail + 1) % kbuf })

module _ {P : Type 0} (p : Ports P) where
  unfoldable pub kbd_irq : P × Kbd → P × Kbd
  kbd_irq (q, s) =
      let st = p.status q in
      let sc = p.data_byte st.1 in if st.0 % 2 == 0 then (st.1, s) else (sc.1, on_byte sc.0 s)

  -- the loop that drops what the controller has, for so many bytes at most
  unfoldable pub drain : ℕ → P → Option P
  drain zero q = none
  drain (suc n) q =
      let st = p.status q in
      let rest = drain n (p.data_byte st.1).1 in if st.0 % 2 == 0 then some st.1 else rest

  unfoldable pub kbd_init : ℕ → P × Kbd → Option P × Kbd
  kbd_init fuel (q, s) =
      (drain fuel q, record s { head = 0; tail = 0; shift = false; caps = false; ctrl = false })
