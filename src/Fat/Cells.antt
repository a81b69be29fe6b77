-- ===== src/Fat/Cells.antt =====
-- kernel/fs/fat.c: fat_get and fat_set on a drive that works.
use gnuwindows.Base.{
  ℕ, ◌+◌, ◌%◌, ◌^◌, ◌≤◌, ◌<◌, inl, inr, ◌≡◌, ◌≢◌, refl, ap, ◌∙◌, true, false, Bool-cases, ==_iff,
  ◌==◌, if◌then◌else◌, Memory, read32, write32, read32_same, read32-write32, write32_frame, arith,
}
use gnuwindows.Fat.Disk.{Outcome, done, bind_done, attempt_done, attempt, Disk, Fat, read_abs}
use gnuwindows.Fat.Table.{entry_sector, entry_offset, keep_top, fat_get, fat_set}
use gnuwindows.Fat.Drive.{
  Works, Fits, table_sector, table_offset, at, sec, fat_at, written, read_abs_lem, write_abs_lem,
  sec-written,
}

-- What a write to the table leaves: one entry changes, no other, and no sector of a cluster.
pub record Changed {D : Type 0} {k : Disk D} (w : Works k) (f : Fat D) (c v : ℕ) (d d' : D)
    : Type 0 where
  pub entries :
      (x : ℕ)
      → x < f.total_clusters + 2
      → fat_at w f d' x ≡ (if x == c then v % 2 ^ 28 else fat_at w f d x)
  pub sectors : (l : ℕ) → f.data_start ≤ l → sec w f d' l ≡ sec w f d l

-- a call that ends, with the buffer and the drive that it leaves
abbrev pub Gives :
    {D A : Type 0} {k : Disk D}
    → Works k
    → Fat D
    → (Memory → D → Type 0)
    → A
    → Outcome (Fat D) A
    → Type 0
Gives {D} w f P a o = (s : Memory) × (d : D) × (o ≡ done a (at w f s d)) × P s d

keep_top_low : (old val : ℕ) → keep_top old val % 2 ^ 32 % 2 ^ 28 ≡ val % 2 ^ 28
keep_top_low old val = omega arith

==_self : (n : ℕ) → (n == n) ≡ true
==_self n = ground arith

offsets_differ :
    {D : Type 0} (f : Fat D) (x c : ℕ)
    → x ≢ c
    → table_sector f x ≡ table_sector f c
    → table_offset x ≢ table_offset c
offsets_differ f x c ne e eo = ne (omega arith)

-- entries of one sector do not overlap
other_entry :
    (m : Memory) (c x v : ℕ)
    → x ≢ c
    → table_offset x ≢ table_offset c
    → read32 (write32 (table_offset c) v m) (table_offset x) ≡ read32 m (table_offset x)
other_entry m c x v ne apart =
    read32_same m (write32 (table_offset c) v m) (table_offset x)
      λ b lo hi. write32_frame (table_offset c) v m b (ground arith)

module _ {D : Type 0} {k : Disk D} (w : Works k) (f : Fat D) (r : Fits w f) where
  pub table_sector-lt : (c : ℕ) → c < f.total_clusters + 2 → table_sector f c < f.data_start
  table_sector-lt c h = omega (arith, r.table_below)

  table_sector-size : (c : ℕ) → c < f.total_clusters + 2 → table_sector f c < w.size
  table_sector-size c h = omega (arith, r.data_below, table_sector-lt c h)

  entry_sector_eq :
      (c : ℕ) (s : Memory) (d : D)
      → c < f.total_clusters + 2
      → entry_sector (at w f s d) c ≡ table_sector f c
  unfolding entry_sector
  entry_sector_eq c s d h =
      rw r.has_512 (omega (arith, table_sector-size c h, r.size_below, r.few_clusters))

  entry_offset_eq :
      (c : ℕ) (s : Memory) (d : D)
      → c < f.total_clusters + 2
      → entry_offset (at w f s d) c ≡ table_offset c
  unfolding entry_offset
  entry_offset_eq c s d h = rw r.has_512 (omega (arith, r.few_clusters))

  pub fat_get_lem :
      (c : ℕ) (s : Memory) (d : D)
      → c < f.total_clusters + 2
      → fat_get k c (at w f s d) ≡ done (fat_at w f d c) (at w f (sec w f d (table_sector f c)) d)
  unfolding fat_get fat_at
  fat_get_lem c s d h =
      rw (entry_sector_eq c s d h, entry_offset_eq c s d h)
        (bind_done (attempt (read_abs k (table_sector f c))) _ (at w f s d) (
          attempt_done (read_abs k (table_sector f c)) (at w f s d)
            (read_abs_lem w f (table_sector f c) s d (table_sector-size c h))))

  module _ (c v : ℕ) (d : D) (h : c < f.total_clusters + 2) where
    updated : Memory
    updated =
        write32 (table_offset c)
          (keep_top (read32 (sec w f d (table_sector f c)) (table_offset c)) v)
          (sec w f d (table_sector f c))

    after : D
    after = written w f (table_sector f c) updated d

    sec-after : (l : ℕ) → sec w f after l ≡ (if l == table_sector f c then updated else sec w f d l)
    unfolding after
    sec-after l = sec-written w f (table_sector f c) updated d l (table_sector-size c h)

    entry_same : fat_at w f after c ≡ v % 2 ^ 28
    unfolding fat_at updated
    entry_same =
        rw (sec-after (table_sector f c), ==_self (table_sector f c))
          (ap (λ t. t % 2 ^ 28)
              (read32-write32 (table_offset c)
                (keep_top (read32 (sec w f d (table_sector f c)) (table_offset c)) v)
                (sec w f d (table_sector f c)))
            ∙ keep_top_low (read32 (sec w f d (table_sector f c)) (table_offset c)) v)

    entry_other : (x : ℕ) → x ≢ c → fat_at w f after x ≡ fat_at w f d x
    unfolding fat_at updated
    entry_other x ne = elim (Bool-cases (table_sector f x == table_sector f c)) [
      | inl e ↦
          let ts : table_sector f x ≡ table_sector f c = ground arith in
          rw (sec-after (table_sector f x), e)
            (rw ts (
              ap (λ t. t % 2 ^ 28)
                (other_entry (sec w f d (table_sector f c)) c x _ ne (offsets_differ f x c ne ts))))
      | inr e ↦ rw (sec-after (table_sector f x), e) refl
    ]

    after-Changed : Changed w f c v d after
    after-Changed = record {
      entries = λ x hx. elim (Bool-cases (x == c)) [
        | inl e ↦ rw e (ap (fat_at w f after) ((==_iff x c).0 e) ∙ entry_same)
        | inr e ↦ rw e (entry_other x (ground arith))
      ];
      sectors = λ l hl.
          let no_table : (l == table_sector f c) ≡ false = ground (arith, table_sector-lt c h) in
          sec-after l ∙ rw no_table refl;
    }

    pub fat_set_lem :
        (s : Memory) → Gives w f (λ s' d'. Changed w f c v d d') tt (fat_set k c v (at w f s d))
    unfolding fat_set after updated
    fat_set_lem s = (
      updated,
      after,
      rw (entry_sector_eq c s d h, entry_offset_eq c s d h)
          (bind_done (read_abs k (table_sector f c)) _ (at w f s d)
              (read_abs_lem w f (table_sector f c) s d (table_sector-size c h))
            ∙ write_abs_lem w f (table_sector f c) updated d (table_sector-size c h)),
      after-Changed,
    )
