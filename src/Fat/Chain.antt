-- ===== src/Fat/Chain.antt =====
-- kernel/fs/fat.c: the bytes of a file in its chain of clusters, the loops of fat_write_file and
-- fat_read_file.
use gnuwindows.Base.{
  ℕ, zero, suc, ◌+◌, ◌-◌, ◌%◌, ◌^◌, min, Bool, true, false, Option, none, some, List, [], ◌∷◌, ◌++◌,
  ◌==◌, ltb, ◌&&◌, length, get_or, take, drop, Memory,
}
use gnuwindows.Fat.Disk.{
  done, hangs, ◌>>=◌, ◌>>◌, pure, attempt, Disk, M, set_sector, get_state, cluster_to_lba, read_abs,
  write_abs,
}
use gnuwindows.Fat.Names.{bytes_at}
use gnuwindows.Fat.Table.{is_cluster, fat_get, fat_set, fat_alloc_cluster}
use gnuwindows.Fat.Entries.{zero_sector}

abbrev pub sector_size : ℕ
sector_size = 512

-- the bytes that go into one sector, and those that follow them
unfoldable pub chunk : List ℕ → List ℕ
chunk src = take sector_size src

unfoldable pub after_chunk : List ℕ → List ℕ
after_chunk src = drop sector_size src

-- a sector with these bytes at its start and zeros behind them
unfoldable pub sector_of : List ℕ → Memory
sector_of bytes b = get_or bytes b 0

-- the first bytes of a sector, `left` of them if it has as many
unfoldable pub sector_bytes : ℕ → Memory → List ℕ
sector_bytes left m = bytes_at (min sector_size left) 0 m

unfoldable pub left_after : ℕ → ℕ
left_after left = left - sector_size

abbrev pub is_empty : List ℕ → Bool
is_empty [] = true
is_empty (c ∷ p) = false

module _ {D : Type 0} (k : Disk D) where
  -- The rest of a cluster is cleared; a sector that cannot be written is passed over.
  unfoldable pub clear_sectors : ℕ → ℕ → M D (Unit {0})
  clear_sectors zero lba f = done tt f
  clear_sectors (suc n) lba f =
      (set_sector zero_sector
          >> (attempt (write_abs k lba) >> clear_sectors n ((lba + 1) % 2 ^ 32)))
        f

  -- the sectors of one cluster; what is left of the bytes
  unfoldable pub fill_cluster : ℕ → ℕ → List ℕ → M D (List ℕ)
  fill_cluster zero lba src f = done src f
  fill_cluster (suc n) lba src f =
      (set_sector (sector_of (chunk src))
          >> (write_abs k lba >> elim (is_empty (after_chunk src)) [
            | true ↦ clear_sectors n ((lba + 1) % 2 ^ 32) >> pure []
            | false ↦ fill_cluster n ((lba + 1) % 2 ^ 32) (after_chunk src)
          ]))
        f

  abbrev pub link_after : Option ℕ → ℕ → M D (Unit {0})
  link_after none c = pure tt
  link_after (some prev) c = fat_set k prev c

  -- the loop over the clusters of a file behind `prev`; the first of them
  unfoldable pub write_chain : ℕ → Option ℕ → List ℕ → M D ℕ
  write_chain zero prev src f = hangs
  write_chain (suc n) prev src f =
      (fat_alloc_cluster k >>= λ c.
      link_after prev c
      >> (get_state >>= λ g. fill_cluster g.sec_per_cluster (cluster_to_lba g c) src >>= λ rest.
          elim (is_empty rest) [ true ↦ pure c | false ↦ write_chain n (some c) rest >> pure c ]))
        f

  -- at most `left` bytes from the sectors of a cluster
  unfoldable pub read_cluster : ℕ → ℕ → ℕ → M D (List ℕ)
  read_cluster zero lba left f = done [] f
  read_cluster (suc n) lba left f = elim (left == 0) [
    | true ↦ done [] f
    | false ↦
        (read_abs k lba
            >> (get_state >>= λ g. read_cluster n ((lba + 1) % 2 ^ 32) (left_after left) >>= λ rest.
                pure (sector_bytes left g.sector ++ rest)))
          f
  ]

  -- at most `left` bytes from a chain of at most so many clusters
  unfoldable pub read_chain : ℕ → ℕ → ℕ → M D (List ℕ)
  read_chain zero cl left f = hangs
  read_chain (suc n) cl left f = elim (is_cluster cl && ltb 0 left) [
    | false ↦ done [] f
    | true ↦
        (read_cluster f.sec_per_cluster (cluster_to_lba f cl) left >>= λ bytes.
        fat_get k cl >>= λ next.
        read_chain n next (left - length bytes) >>= λ rest. pure (bytes ++ rest))
          f
  ]
