-- ===== src/Fat/Entries.antt =====
-- kernel/fs/fat.c: dir_find and dir_alloc_slot.
use gnuwindows.Base.{
  ℕ, zero, suc, ◌+◌, ◌*◌, ◌/◌, ◌%◌, ◌^◌, Bool, true, false, Option, none, some, List, ◌==◌, leb,
  if◌then◌else◌, ◌||◌, Memory, read16, read32,
}
use gnuwindows.Fat.Disk.{
  done, hangs, ◌>>=◌, ◌>>◌, pure, attempt, Disk, M, set_sector, get_state, cluster_to_lba, read_abs,
  write_abs,
}
use gnuwindows.Fat.Names.{eq83}
use gnuwindows.Fat.Table.{is_cluster, fat_get, fat_set, fat_alloc_cluster}

-- what `dir_find` stores through its pointers
pub record Entry : Type 0 where
  pub cluster : ℕ
  pub size : ℕ
  pub is_dir : Bool
  pub lba : ℕ
  pub offset : ℕ

-- bit 3 and bit 4 of the attributes: a label of the volume, and a directory
abbrev pub attr_bit : ℕ → ℕ → Bool
attr_bit b a = a / b % 2 == 1

-- the entry at `at` of the sector `m`
unfoldable pub entry_at : ℕ → ℕ → Memory → Entry
entry_at lba at m = record {
  cluster = read16 m (at + 26) + 2 ^ 16 * read16 m (at + 20);
  size = read32 m (at + 28);
  is_dir = attr_bit 16 (m (at + 11));
  lba = lba;
  offset = at;
}

-- the end of the directory, the entry, or neither
pub data Scan : Type 0 where
  absent more : Scan
  hit : Entry → Scan

-- the loop over the entries of a sector
unfoldable pub scan_entries : List ℕ → ℕ → ℕ → ℕ → Memory → Scan
scan_entries name lba zero at m = more
scan_entries name lba (suc n) at m =
    let rest = scan_entries name lba n (at + 32) m in
    if m at == 0
    then absent
    else if m at == 0xE5 || attr_bit 8 (m (at + 11))
    then rest
    else if eq83 name at m
    then hit (entry_at lba at m)
    else rest

-- the first entry of a sector that is free
unfoldable pub free_entry : ℕ → ℕ → Memory → Option ℕ
free_entry zero at m = none
free_entry (suc n) at m =
    let rest = free_entry n (at + 32) m in if m at == 0 || m at == 0xE5 then some at else rest

abbrev pub zero_sector : Memory
zero_sector b = 0

module _ {D : Type 0} (k : Disk D) where
  -- the loop over the sectors of a cluster; a sector that cannot be read ends the search
  unfoldable pub scan_sectors : List ℕ → ℕ → ℕ → M D Scan
  scan_sectors name zero lba f = done more f
  scan_sectors name (suc n) lba f =
      (attempt (read_abs k lba) >>= λ good. elim good [
        | false ↦ pure absent
        | true ↦ get_state >>= λ g. elim (scan_entries name lba 16 0 g.sector) [
          | more ↦ scan_sectors name n ((lba + 1) % 2 ^ 32)
          | absent ↦ pure absent
          | hit e ↦ pure (hit e)
        ]
      ])
        f

  unfoldable pub dir_find : ℕ → ℕ → List ℕ → M D (Option Entry)
  dir_find zero dir_cl name f = hangs
  dir_find (suc n) dir_cl name f = elim (is_cluster dir_cl) [
    | false ↦ done none f
    | true ↦
        (scan_sectors name f.sec_per_cluster (cluster_to_lba f dir_cl) >>= λ r. elim r [
          | absent ↦ pure none
          | hit e ↦ pure (some e)
          | more ↦ fat_get k dir_cl >>= λ next. dir_find n next name
        ])
          f
  ]

  -- the place of a free entry in the sectors of a cluster
  unfoldable pub free_in_sectors : ℕ → ℕ → M D (Option (ℕ × ℕ))
  free_in_sectors zero lba f = done none f
  free_in_sectors (suc n) lba f =
      (read_abs k lba
          >> (get_state >>= λ g. elim (free_entry 16 0 g.sector) [
            | some at ↦ pure (some (lba, at))
            | none ↦ free_in_sectors n ((lba + 1) % 2 ^ 32)
          ]))
        f

  -- the buffer into the sectors of a cluster
  unfoldable pub write_sectors : ℕ → ℕ → M D (Unit {0})
  write_sectors zero lba f = done tt f
  write_sectors (suc n) lba f = (write_abs k lba >> write_sectors n ((lba + 1) % 2 ^ 32)) f

  -- a new cluster of zeros behind the last one of a directory
  unfoldable pub extend_dir : ℕ → M D ℕ
  extend_dir cur = do
    nc ← fat_alloc_cluster k
    fat_set k cur nc
    set_sector zero_sector
    f ← get_state
    write_sectors f.sec_per_cluster (cluster_to_lba f nc)
    pure nc

  unfoldable pub dir_alloc_slot : ℕ → ℕ → M D (ℕ × ℕ)
  dir_alloc_slot zero cur f = hangs
  dir_alloc_slot (suc n) cur f =
      (free_in_sectors f.sec_per_cluster (cluster_to_lba f cur) >>= λ r. elim r [
        | some slot ↦ pure slot
        | none ↦ fat_get k cur >>= λ next. elim (leb 0x0FFFFFF8 next) [
          | true ↦ extend_dir cur >>= λ nc. dir_alloc_slot n nc
          | false ↦ dir_alloc_slot n next
        ]
      ])
        f
