-- ===== src/Fat/Tests.antt =====
-- kernel/fs/fat.c: the file system on a small drive, whose sectors are a function of their number.
use gnuwindows.Base.{
  ℕ, ◌%◌, ◌^◌, ◌≡◌, refl, true, false, ◌==◌, if◌then◌else◌, none, List, [], ◌∷◌, Memory, ok, text,
  read16, read32, ltb, leb, ◌&&◌, arith,
}
use gnuwindows.Fat.Disk.{done, backend, Disk, Fat}
use gnuwindows.Fat.Names.{to_83, take_chars, eq83}
use gnuwindows.Fat.Table.{end_of_chain, fat_alloc_cluster, fat_free_chain}
use gnuwindows.Fat.Entries.{attr_bit, entry_at, scan_entries, free_entry, dir_find}
use gnuwindows.Fat.Files.{new_entry, fat_write_file}
use gnuwindows.Fat.Walk.{take_name}
use gnuwindows.Fat.Chain.{write_chain}
use gnuwindows.Fat.Drive.{Works, Fits, at, sec, fat_at}
use gnuwindows.Fat.Find.{
  scan_all, found, range, sectors_of, free_all, Dir, dir_end, dir_link, dir_find-scan_all,
}
use gnuwindows.Fat.Cells.{Gives}
use gnuwindows.Fat.Release.{Freed, fat_free_chain-Freed}
use gnuwindows.Fat.Letters.{no_byte, one_byte}
use gnuwindows.Fat.Slots.{entry_at-new_entry}
use gnuwindows.Fat.Save.{NewFile, SavesAndReads, fat_read_file-fat_write_file}
use gnuwindows.Fat.Alloc.{Allocates, fat_alloc_cluster-Allocates}
use gnuwindows.Fat.Rounds.{Chains}
use gnuwindows.Fat.Write.{write_chain-Chains}

abbrev Sectors : Type 0
Sectors = ℕ → Memory

abbrev put_sector : ℕ → Memory → Sectors → Sectors
put_sector lba buf d l = if l == lba then buf else d l

abbrev drive : Disk Sectors
drive = record {
  start = λ b d. (ok, d);
  read = λ b lba buf d. (ok, d lba, d);
  write = λ b lba buf d. (ok, put_sector lba buf d);
  flush = λ d. d;
}

abbrev drive-Works : Works drive
drive-Works = record {
  view = λ b d lba. d lba;
  size = 100;
  read_view = λ b lba buf d h. refl;
  write_ok = λ b lba buf d h. refl;
  view_write = λ b lba buf d l h. refl;
  view_flush = λ b d l. refl;
}

abbrev blank : Memory
blank b = 0

abbrev blank_sectors : Sectors
blank_sectors lba = blank

abbrev small : Fat Sectors
small = record {
  part_lba = 0;
  fat_start = 8;
  data_start = 10;
  root_cluster = 2;
  bytes_per_sec = 512;
  sec_per_cluster = 2;
  num_fats = 1;
  fat_size_sectors = 2;
  total_clusters = 20;
  mounted = true;
  cwd_cluster = 2;
  cwd_path = blank;
  use_nvme = true;
  use_ahci = false;
  sector = blank;
  disk = blank_sectors;
}

small-Fits : Fits drive-Works small
small-Fits = record {
  has_512 = refl;
  has_sectors = omega arith;
  table_below = omega arith;
  data_below = omega arith;
  size_below = omega arith;
  few_clusters = omega arith;
}

abbrev letters : List ℕ
letters = 65 ∷ 66 ∷ 67 ∷ []

fat_alloc_cluster_example :
    Allocates drive-Works small 3 blank_sectors
      (fat_alloc_cluster drive (at drive-Works small blank blank_sectors))
fat_alloc_cluster_example =
    fat_alloc_cluster-Allocates drive-Works small small-Fits blank blank_sectors (omega arith)

write_chain_example :
    Chains drive-Works small none letters blank_sectors
      (write_chain drive 4 none letters (at drive-Works small blank blank_sectors))
write_chain_example =
    write_chain-Chains drive-Works small small-Fits 4 none letters blank blank_sectors (omega arith)
      (omega arith) (omega arith) tt

-- the same drive with a root directory of one cluster, which is empty
abbrev table : Memory
table b = if leb 8 b && ltb b 11 then 0xFF else if b == 11 then 0x0F else 0

abbrev rooted : Sectors
rooted lba = if lba == 8 then table else blank

root_marked : fat_at drive-Works small rooted 2 ≡ end_of_chain
unfolding fat_at sec backend read32 read16
root_marked = refl

root_Dir : Dir drive-Works small rooted 2 (2 ∷ [])
root_Dir =
    dir_link record { two_le = omega arith; c-lt = omega arith }
      (λ z. absurd (omega (arith, root_marked))) root_marked (dir_end refl)

new_file : NewFile drive-Works small rooted (2 ∷ []) 10 0 (text "A.TXT") letters
unfolding free_all scan_all sectors_of range sec backend scan_entries free_entry take_name to_83
    take_chars
new_file = record {
  mounted = refl;
  has_clusters = omega arith;
  one_part = record { has = refl; whole = refl };
  visible = record {
    bytes = one_byte (omega arith) (
        one_byte (omega arith)
          (one_byte (omega arith) (one_byte (omega arith) (one_byte (omega arith) no_byte))));
    first_used = refl;
    no_label = refl;
  };
  directory = root_Dir;
  not_there = refl;
  place = refl;
  has_bytes = omega arith;
  at_most = omega arith;
}

save_example :
    SavesAndReads drive-Works small 2
      (text "A.TXT")
      letters
      2
      blank
      (fat_write_file drive 2 (text "A.TXT") letters (at drive-Works small blank rooted))
save_example =
    fat_read_file-fat_write_file drive-Works small small-Fits 2 rooted (2 ∷ []) 10 0 (text "A.TXT")
      letters new_file (omega arith) 2 blank blank

find_example :
    (s' : Memory) × (dir_find drive 2 2 (text "A.TXT") (at drive-Works small blank rooted)
      ≡ done
          (found
            (scan_all (sec drive-Works small rooted) (text "A.TXT") (sectors_of small (2 ∷ []))))
          (at drive-Works small s' rooted))
find_example =
    dir_find-scan_all drive-Works small small-Fits (text "A.TXT") 2 2 (2 ∷ []) blank rooted
      (omega arith) root_Dir

free_example :
    Gives drive-Works small
      (λ s d. Freed drive-Works small (2 ∷ []) rooted d)
      tt
      (fat_free_chain drive 2 2 (at drive-Works small blank rooted))
free_example =
    fat_free_chain-Freed drive-Works small small-Fits 2 2 (2 ∷ []) blank rooted (omega arith) refl
      root_Dir

entry_example :
    (eq83 (text "A.TXT") 32 (new_entry 32 (text "A.TXT") 0x20 7 3 blank) ≡ true)
    × (entry_at 10 32 (new_entry 32 (text "A.TXT") 0x20 7 3 blank) ≡ record {
      cluster = 7;
      size = 3;
      is_dir = attr_bit 16 (0x20 % 2 ^ 8);
      lba = 10;
      offset = 32;
    })
entry_example =
    entry_at-new_entry 32 (text "A.TXT") 0x20 7 3 blank new_file.visible.bytes 10 (omega arith)
      (omega arith)

short_name : to_83 (text "readme.txt") ≡ text "README  TXT"
unfolding to_83 take_chars
short_name = refl

-- The name of the directory above has no form in an entry.
dots_name : to_83 (text "..") ≡ text "        .  "
unfolding to_83 take_chars
dots_name = refl
