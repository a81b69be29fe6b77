-- ===== src/Fat/Files.antt =====
-- kernel/fs/fat.c: the operations on files and directories. `fuel` bounds the walks along chains of
-- clusters.
use gnuwindows.Base.{
  ℕ, zero, suc, ◌+◌, ◌-◌, ◌/◌, ◌%◌, ◌^◌, min, Bool, true, false, Option, none, some, List, ◌==◌,
  ltb, leb, if◌then◌else◌, ◌&&◌, ◌||◌, not, length, text, Memory, write8, write16, write32, fill,
}
use gnuwindows.Fat.Disk.{
  done, hangs, ◌>>=◌, ◌>>◌, pure, give_up, when_ok, attempt, Disk, M, set_sector, get_state,
  cluster_to_lba, read_abs, write_abs, flush_disk,
}
use gnuwindows.Fat.Names.{to_83, put_bytes}
use gnuwindows.Fat.Table.{is_cluster, fat_get, fat_alloc_cluster, fat_free_chain}
use gnuwindows.Fat.Entries.{Entry, zero_sector, dir_find, dir_alloc_slot}
use gnuwindows.Fat.Walk.{resolve_parent, resolve_full}
use gnuwindows.Fat.Chain.{is_empty, write_chain, read_chain}

-- the first cluster of an entry at `at`: two halves
unfoldable pub put_cluster : ℕ → ℕ → Memory → Memory
put_cluster at cl m = write16 (at + 20) (cl / 2 ^ 16) (write16 (at + 26) cl m)

-- a new entry with the attributes `attr`
unfoldable pub new_entry : ℕ → List ℕ → ℕ → ℕ → ℕ → Memory → Memory
new_entry at name attr cl size m =
    write32 (at + 28) size
      (put_cluster at cl (write8 (at + 11) attr (put_bytes at (to_83 name) (fill 32 at 0 m))))

-- the sector with '.' and '..' of a new directory
unfoldable pub dot_entries : ℕ → ℕ → Memory
dot_entries cl parent = put_cluster 32 parent (
    write8 (32 + 11) 0x10 (
      put_bytes 32 (text "..         ")
        (put_cluster 0 cl (write8 11 0x10 (put_bytes 0 (text ".          ") zero_sector)))))

-- the largest file, 512 * 64
abbrev pub max_length : ℕ
max_length = 32768

-- What the loop that looks for other entries than '.' and '..' finds in a sector.
pub data Rest : Type 0 where
  is_end is_used goes_on : Rest

unfoldable pub is_dot_name : ℕ → Memory → Bool
is_dot_name at m =
    m at == b'.' && (m (at + 1) == b' ' || (m (at + 1) == b'.' && m (at + 2) == b' '))

unfoldable pub used_entries : ℕ → ℕ → Memory → Rest
used_entries zero at m = goes_on
used_entries (suc n) at m =
    let rest = used_entries n (at + 32) m in
    if m at == 0
    then is_end
    else if m at == 0xE5
    then rest
    else if is_dot_name at m
    then rest
    else is_used

module _ {D : Type 0} (k : Disk D) (fuel : ℕ) where
  -- The directory and the name of a path that has one, on a drive that is mounted.
  unfoldable pub named : List ℕ → M D (ℕ × List ℕ)
  named path f =
      when_ok (f.mounted && not (is_empty path))
        (resolve_parent k fuel path >>= λ r. when_ok (not (is_empty r.1)) (pure r)) f

  -- the entry at a place, from the sector on the drive and back
  unfoldable pub store_entry : ℕ × ℕ → (Memory → Memory) → M D (Unit {0})
  store_entry slot change = do
    read_abs k slot.0
    g ← get_state
    set_sector (change g.sector)
    write_abs k slot.0
    flush_disk k

  -- zeros in the other sectors of a new directory
  unfoldable pub zero_sectors : ℕ → ℕ → M D (Unit {0})
  zero_sectors zero lba f = done tt f
  zero_sectors (suc n) lba f =
      (set_sector zero_sector >> (write_abs k lba >> zero_sectors n ((lba + 1) % 2 ^ 32))) f

  unfoldable pub new_dir : ℕ → List ℕ → M D (Unit {0})
  new_dir parent name = do
    cl ← fat_alloc_cluster k
    set_sector (dot_entries cl parent)
    f ← get_state
    write_abs k (cluster_to_lba f cl)
    zero_sectors (f.sec_per_cluster - 1) ((cluster_to_lba f cl + 1) % 2 ^ 32)
    slot ← dir_alloc_slot k fuel parent
    store_entry slot (new_entry slot.1 name 0x10 cl 0)

  unfoldable pub fat_mkdir : List ℕ → M D (Unit {0})
  fat_mkdir path = named path >>= λ r.
      dir_find k fuel r.0 r.1 >>= λ old. elim old [ some e ↦ give_up | none ↦ new_dir r.0 r.1 ]

  -- the bytes of a file, no more than the buffer holds
  unfoldable pub fat_read_file : List ℕ → ℕ → M D (List ℕ)
  fat_read_file path maxlen f =
      when_ok f.mounted
        (resolve_full k fuel path >>= λ t.
          when_ok (not t.is_dir)
            (read_chain k (suc (min t.size maxlen)) t.cluster (min t.size maxlen)))
        f

  -- A file that is there loses its clusters and keeps its place, which is the result.
  unfoldable pub place_for : ℕ → List ℕ → Option Entry → M D (ℕ × ℕ)
  place_for parent name none = dir_alloc_slot k fuel parent
  place_for parent name (some e) = when_ok (not e.is_dir) (
      (if leb 2 e.cluster then attempt (fat_free_chain k fuel e.cluster) else pure true)
      >> pure (e.lba, e.offset))

  unfoldable pub write_bytes : List ℕ → M D ℕ
  write_bytes src = if is_empty src then pure 0 else write_chain k (suc (length src)) none src

  unfoldable pub fat_write_file : List ℕ → List ℕ → M D ℕ
  fat_write_file path src = when_ok (not (ltb max_length (length src))) (
      named path >>= λ r. dir_find k fuel r.0 r.1 >>= λ old. place_for r.0 r.1 old >>= λ slot.
      write_bytes src >>= λ cl.
      store_entry slot (new_entry slot.1 r.1 0x20 cl (length src)) >> pure (length src))

  -- the sectors of a directory that must have no other entries
  unfoldable pub used_sectors : ℕ → ℕ → M D Rest
  used_sectors zero lba f = done goes_on f
  used_sectors (suc n) lba f =
      (read_abs k lba
          >> (get_state >>= λ g. elim (used_entries 16 0 g.sector) [
            | goes_on ↦ used_sectors n ((lba + 1) % 2 ^ 32)
            | is_end ↦ pure is_end
            | is_used ↦ give_up
          ]))
        f

  unfoldable pub check_empty : ℕ → ℕ → M D (Unit {0})
  check_empty zero cl f = hangs
  check_empty (suc n) cl f = elim (is_cluster cl) [
    | false ↦ done tt f
    | true ↦
        (used_sectors f.sec_per_cluster (cluster_to_lba f cl) >>= λ r. elim r [
          | is_end ↦ pure tt
          | is_used ↦ give_up
          | goes_on ↦ fat_get k cl >>= λ next. check_empty n next
        ])
          f
  ]

  unfoldable pub remove_entry : Entry → M D (Unit {0})
  remove_entry e = do
    if e.is_dir then check_empty fuel e.cluster else pure tt
    if leb 2 e.cluster then attempt (fat_free_chain k fuel e.cluster) else pure true
    store_entry (e.lba, e.offset) (write8 e.offset 0xE5)

  unfoldable pub fat_unlink : List ℕ → M D (Unit {0})
  fat_unlink path = named path >>= λ r.
      dir_find k fuel r.0 r.1 >>= λ old. elim old [ none ↦ give_up | some e ↦ remove_entry e ]
