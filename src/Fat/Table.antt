-- ===== src/Fat/Table.antt =====
-- kernel/fs/fat.c: the table of the clusters.
use gnuwindows.Base.{
  ℕ, zero, suc, ◌+◌, ◌-◌, ◌*◌, ◌/◌, ◌%◌, ◌^◌, Bool, true, false, ◌==◌, ltb, leb, if◌then◌else◌,
  ◌&&◌, read32, write32,
}
use gnuwindows.Fat.Disk.{
  done, hangs, ◌>>=◌, ◌>>◌, pure, give_up, attempt, Disk, Fat, M, set_sector, get_state, read_abs,
  write_abs,
}

-- `cl >= 2 && cl < 0x0FFFFFF8`
abbrev pub is_cluster : ℕ → Bool
is_cluster cl = leb 2 cl && ltb cl 0x0FFFFFF8

abbrev pub end_of_chain : ℕ
end_of_chain = 0x0FFFFFFF

-- the place of an entry: the sector, and the offset in it
unfoldable pub entry_sector : {D : Type 0} → Fat D → ℕ → ℕ
entry_sector f cl = (f.fat_start + cl * 4 % 2 ^ 32 / f.bytes_per_sec) % 2 ^ 32

unfoldable pub entry_offset : {D : Type 0} → Fat D → ℕ → ℕ
entry_offset f cl = cl * 4 % 2 ^ 32 % f.bytes_per_sec

-- `(old & 0xF0000000) | (val & 0x0FFFFFFF)`
abbrev pub keep_top : ℕ → ℕ → ℕ
keep_top old val = old / 2 ^ 28 * 2 ^ 28 + val % 2 ^ 28

module _ {D : Type 0} (k : Disk D) where
  unfoldable pub fat_get : ℕ → M D ℕ
  fat_get cl = do
    f ← get_state
    good ← attempt (read_abs k (entry_sector f cl))
    g ← get_state
    pure (if good then read32 g.sector (entry_offset f cl) % 2 ^ 28 else 0x0FFFFFF7)

  unfoldable pub fat_set : ℕ → ℕ → M D (Unit {0})
  fat_set cl val = do
    f ← get_state
    read_abs k (entry_sector f cl)
    g ← get_state
    set_sector
        (write32 (entry_offset f cl) (keep_top (read32 g.sector (entry_offset f cl)) val) g.sector)
    write_abs k (entry_sector f cl)

  -- the loop of `fat_alloc_cluster`, with the number of clusters left
  unfoldable pub alloc_from : ℕ → ℕ → M D ℕ
  alloc_from zero c = give_up
  alloc_from (suc n) c = fat_get c >>= λ v. elim (v == 0) [
    | true ↦ fat_set c end_of_chain >> pure c
    | false ↦ alloc_from n (c + 1)
  ]

  -- `for (c = 3; c < total_clusters + 2; c++)`
  unfoldable pub fat_alloc_cluster : M D ℕ
  fat_alloc_cluster f = alloc_from ((f.total_clusters + 2) % 2 ^ 32 - 3) 3 f

  -- `fat_free_chain`, for so many clusters at most
  unfoldable pub fat_free_chain : ℕ → ℕ → M D (Unit {0})
  fat_free_chain zero cl f = hangs
  fat_free_chain (suc n) cl f = elim (is_cluster cl) [
    | true ↦ (fat_get cl >>= λ next. fat_set cl 0 >> fat_free_chain n next) f
    | false ↦ done tt f
  ]
