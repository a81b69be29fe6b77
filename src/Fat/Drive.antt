-- ===== src/Fat/Drive.antt =====
-- kernel/fs/fat.c: what the file system relies on of a drive that works, and a layout that fits it.
use gnuwindows.Base.{
  ℕ, ◌+◌, ◌*◌, ◌/◌, ◌%◌, ◌^◌, ◌≤◌, ◌<◌, ◌≡◌, refl, ◌==◌, if◌then◌else◌, Memory, ok, read32,
}
use gnuwindows.Fat.Disk.{done, Backend, Disk, Fat, backend, read_abs, write_abs}

-- The documented behaviour of a drive with `size` sectors: a read of one gives what is on it, and a
-- write puts the buffer there and changes no other sector, and a flush changes none.
pub record Works {D : Type 0} (k : Disk D) : Type 0 where
  pub view : Backend → D → ℕ → Memory
  pub size : ℕ
  pub read_view :
      (b : Backend) (lba : ℕ) (buf : Memory) (d : D)
      → lba < size
      → k.read b lba buf d ≡ (ok, view b d lba, d)
  pub write_ok :
      (b : Backend) (lba : ℕ) (buf : Memory) (d : D) → lba < size → (k.write b lba buf d).0 ≡ ok
  pub view_write :
      (b : Backend) (lba : ℕ) (buf : Memory) (d : D) (l : ℕ)
      → lba < size
      → view b (k.write b lba buf d).1 l ≡ (if l == lba then buf else view b d l)
  pub view_flush : (b : Backend) (d : D) (l : ℕ) → view b (k.flush d) l ≡ view b d l

-- The table has an entry for each cluster, lies before the clusters, and these lie on the drive.
pub record Fits {D : Type 0} {k : Disk D} (w : Works k) (f : Fat D) : Type 0 where
  pub has_512 : f.bytes_per_sec ≡ 512
  pub has_sectors : 0 < f.sec_per_cluster
  pub table_below : f.fat_start + (f.total_clusters + 2) * 4 / 512 < f.data_start
  pub data_below : f.data_start + f.total_clusters * f.sec_per_cluster ≤ w.size
  pub size_below : w.size < 2 ^ 32
  pub few_clusters : f.total_clusters + 2 < 0x0FFFFFF8

-- the place of an entry in a layout that fits
abbrev pub table_sector : {D : Type 0} → Fat D → ℕ → ℕ
table_sector f c = f.fat_start + c * 4 / 512

abbrev pub table_offset : ℕ → ℕ
table_offset c = c * 4 % 512

module _ {D : Type 0} {k : Disk D} (w : Works k) (f : Fat D) where
  -- the file system with this buffer and this drive
  abbrev pub at : Memory → D → Fat D
  at s d = record f { sector = s; disk = d }

  -- a sector on the drive, and an entry of the table
  unfoldable pub sec : D → ℕ → Memory
  sec d lba = w.view (backend f) d lba

  unfoldable pub fat_at : D → ℕ → ℕ
  fat_at d c = read32 (sec d (table_sector f c)) (table_offset c) % 2 ^ 28

  unfoldable pub written : ℕ → Memory → D → D
  written lba s d = (k.write (backend f) lba s d).1

  pub read_abs_lem :
      (lba : ℕ) (s : Memory) (d : D)
      → lba < w.size
      → read_abs k lba (at s d) ≡ done tt (at (sec d lba) d)
  unfolding read_abs sec backend
  read_abs_lem lba s d h = rw (w.read_view (backend f) lba s d h) refl

  pub write_abs_lem :
      (lba : ℕ) (s : Memory) (d : D)
      → lba < w.size
      → write_abs k lba (at s d) ≡ done tt (at s (written lba s d))
  unfolding write_abs written backend
  write_abs_lem lba s d h = rw (w.write_ok (backend f) lba s d h) refl

  pub sec-written :
      (lba : ℕ) (s : Memory) (d : D) (l : ℕ)
      → lba < w.size
      → sec (written lba s d) l ≡ (if l == lba then s else sec d l)
  unfolding sec written
  sec-written lba s d l h = w.view_write (backend f) lba s d l h
