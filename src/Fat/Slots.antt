-- ===== src/Fat/Slots.antt =====
-- kernel/fs/fat.c: the entry that fat_mkdir and fat_write_file make, as dir_find reads it.
use gnuwindows.Base.{
  ℕ, zero, suc, ◌+◌, ◌*◌, ◌/◌, ◌%◌, ◌^◌, ◌≤◌, ◌<◌, inl, inr, ◌≡◌, refl, sym, ap, ◌∙◌, true, List,
  [], ◌∷◌, length, get_or, Memory, read16, read32, read16_same, read16-write16, read32-write32,
  write8, write16, write32, write8_at, write8_frame, write16_frame, write32_frame, fill, fill_frame,
  Outside, arith,
}
use gnuwindows.Vfs.Paths.{streq}
use gnuwindows.Fat.Names.{to_83, bytes_at, eq83, put_bytes}
use gnuwindows.Fat.Entries.{attr_bit, entry_at}
use gnuwindows.Fat.Files.{put_cluster, new_entry}
use gnuwindows.Fat.Letters.{AreBytes, one_byte, length-to_83, to_83-AreBytes}

put_bytes_frame :
    (at : ℕ) (p : List ℕ) (m : Memory) (b : ℕ) → Outside at (length p) b → put_bytes at p m b ≡ m b
unfolding put_bytes
put_bytes_frame at [] m b o = refl
put_bytes_frame at (c ∷ p) m b (inl h) =
    put_bytes_frame (at + 1) p (write8 at c m) b (inl (omega arith)) ∙ write8_frame at c m b (inl h)
put_bytes_frame at (c ∷ p) m b (inr h) =
    put_bytes_frame (at + 1) p (write8 at c m) b (inr (omega arith))
    ∙ write8_frame at c m b (inr (omega arith))

bytes_at-put_bytes :
    (at : ℕ) (p : List ℕ) (m : Memory) → AreBytes p → bytes_at (length p) at (put_bytes at p m) ≡ p
unfolding bytes_at put_bytes
bytes_at-put_bytes at [] m h = refl
bytes_at-put_bytes at (c ∷ p) m (one_byte b h) =
    let e : put_bytes (at + 1) p (write8 at c m) at ≡ c =
      put_bytes_frame (at + 1) p (write8 at c m) at (inl (omega arith))
      ∙ write8_at at c m at refl
      ∙ omega arith in
    rw e (ap (λ q. c ∷ q) (bytes_at-put_bytes (at + 1) p (write8 at c m) h))

pub bytes_at_same :
    (n at : ℕ) (m m' : Memory)
    → ((b : ℕ) → at ≤ b → b < at + n → m' b ≡ m b)
    → bytes_at n at m' ≡ bytes_at n at m
unfolding bytes_at
bytes_at_same zero at m m' same = refl
bytes_at_same (suc n) at m m' same = rw (same at (omega arith) (omega arith)) (
    ap (λ q. m at ∷ q)
      (bytes_at_same n (at + 1) m m' (λ b lo hi. same b (omega arith) (omega arith))))

streq_same : (p : List ℕ) → streq p p ≡ true
unfolding streq
streq_same [] = refl
streq_same (c ∷ p) = ground (arith, streq_same p)

halves : (cl : ℕ) → cl < 2 ^ 32 → cl % 2 ^ 16 + 2 ^ 16 * (cl / 2 ^ 16 % 2 ^ 16) ≡ cl
halves cl h = omega arith

module _ (at : ℕ) (name : List ℕ) (attr cl size : ℕ) (m : Memory) (h : AreBytes name) where
  named_bytes : Memory
  named_bytes = put_bytes at (to_83 name) (fill 32 at 0 m)

  with_attr : Memory
  with_attr = write8 (at + 11) attr named_bytes

  low_half : Memory
  low_half = write16 (at + 26) cl with_attr

  both_halves : Memory
  both_halves = write16 (at + 20) (cl / 2 ^ 16) low_half

  made : Memory
  made = write32 (at + 28) size both_halves

  made_eq : new_entry at name attr cl size m ≡ made
  unfolding new_entry put_cluster named_bytes with_attr low_half both_halves made
  made_eq = refl

  after_name : (b : ℕ) → b < at + 20 → made b ≡ with_attr b
  unfolding low_half both_halves made
  after_name b hi =
      write32_frame (at + 28) size both_halves b (inl (omega arith))
      ∙ write16_frame (at + 20) (cl / 2 ^ 16) low_half b (inl (omega arith))
      ∙ write16_frame (at + 26) cl with_attr b (inl (omega arith))

  made_name : bytes_at 11 at made ≡ to_83 name
  unfolding with_attr named_bytes
  made_name =
      bytes_at_same 11 at named_bytes made
        (λ b lo hi. after_name b (omega arith) ∙ write8_frame (at + 11) attr named_bytes b (inl hi))
      ∙ ap (λ n. bytes_at n at named_bytes) (sym (length-to_83 name h))
      ∙ bytes_at-put_bytes at (to_83 name) (fill 32 at 0 m) (to_83-AreBytes name h)

  made_attr : made (at + 11) ≡ attr % 2 ^ 8
  unfolding with_attr
  made_attr =
      after_name (at + 11) (omega arith) ∙ write8_at (at + 11) attr named_bytes (at + 11) refl

  made_low : read16 made (at + 26) ≡ cl % 2 ^ 16
  unfolding low_half both_halves made
  made_low =
      read16_same low_half made (at + 26) (λ b lo hi.
        write32_frame (at + 28) size both_halves b (inl (omega arith))
        ∙ write16_frame (at + 20) (cl / 2 ^ 16) low_half b (inr (omega arith)))
      ∙ read16-write16 (at + 26) cl with_attr

  made_high : read16 made (at + 20) ≡ cl / 2 ^ 16 % 2 ^ 16
  unfolding both_halves made
  made_high =
      read16_same both_halves made (at + 20)
        (λ b lo hi. write32_frame (at + 28) size both_halves b (inl (omega arith)))
      ∙ read16-write16 (at + 20) (cl / 2 ^ 16) low_half

  made_size : read32 made (at + 28) ≡ size % 2 ^ 32
  unfolding made
  made_size = read32-write32 (at + 28) size both_halves

  pub eq83-new_entry : eq83 name at (new_entry at name attr cl size m) ≡ true
  unfolding eq83
  eq83-new_entry = rw (made_eq, made_name) (streq_same (to_83 name))

  -- The entry that is made for a name of bytes has this name, and the cluster and the size, both below
  -- 2^32, and the kind that were asked for.
  pub entry_at-new_entry :
      (lba : ℕ)
      → cl < 2 ^ 32
      → size < 2 ^ 32
      → (eq83 name at (new_entry at name attr cl size m) ≡ true)
        × (entry_at lba at (new_entry at name attr cl size m) ≡ record {
          cluster = cl;
          size = size;
          is_dir = attr_bit 16 (attr % 2 ^ 8);
          lba = lba;
          offset = at;
        })
  unfolding entry_at
  entry_at-new_entry lba hc hs =
      let small_size : size % 2 ^ 32 ≡ size = omega arith in
      (
        eq83-new_entry,
        rw (made_eq, made_low, made_high, made_attr, made_size, halves cl hc, small_size) refl,
      )

  -- the entry has its attributes, a name that it begins with, and no byte outside of it changes
  pub new_entry-attr : new_entry at name attr cl size m (at + 11) ≡ attr % 2 ^ 8
  new_entry-attr = rw made_eq made_attr

  pub new_entry-first : new_entry at name attr cl size m at ≡ get_or (to_83 name) 0 0
  unfolding bytes_at
  new_entry-first = rw made_eq (ap (λ p. get_or p 0 0) made_name)

  pub new_entry_frame : (b : ℕ) → Outside at 32 b → new_entry at name attr cl size m b ≡ m b
  unfolding named_bytes with_attr low_half both_halves made
  new_entry_frame b o =
      let e : length (to_83 name) ≡ 11 = length-to_83 name h in
      rw made_eq (
        write32_frame (at + 28) size both_halves b (ground arith)
        ∙ write16_frame (at + 20) (cl / 2 ^ 16) low_half b (ground arith)
        ∙ write16_frame (at + 26) cl with_attr b (ground arith)
        ∙ write8_frame (at + 11) attr named_bytes b (ground arith)
        ∙ put_bytes_frame at (to_83 name) (fill 32 at 0 m) b (ground arith)
        ∙ fill_frame 32 at 0 m b o)
