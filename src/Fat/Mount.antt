-- ===== src/Fat/Mount.antt =====
-- kernel/fs/fat.c: fat_mount, fat_getcwd and fat_chdir.
use gnuwindows.Base.{
  ℕ, zero, suc, ◌+◌, ◌-◌, ◌*◌, ◌/◌, ◌%◌, ◌^◌, Bool, true, false, List, [], ◌∷◌, ◌==◌, ltb,
  if◌then◌else◌, ◌&&◌, ◌||◌, not, length, take, text, Memory, ok, fail, read16, read32, write8,
}
use gnuwindows.Vfs.Paths.{streq}
use gnuwindows.Fat.Disk.{
  done, fails, ◌>>=◌, ◌>>◌, pure, when_ok, attempt, Backend, nvme, ahci, ata, Disk, Fat, M,
  get_state, read_abs,
}
use gnuwindows.Fat.Names.{put_bytes}
use gnuwindows.Fat.Walk.{Target, begins_with_slash, resolve_full}

-- `cwd_path` is a buffer of 128 bytes; its text ends before the first 0.
abbrev pub cwd_max : ℕ
cwd_max = 128

unfoldable pub text_at : ℕ → ℕ → Memory → List ℕ
text_at zero at m = []
text_at (suc n) at m = let rest = text_at n (at + 1) m in if m at == 0 then [] else m at ∷ rest

unfoldable pub cwd_text : Memory → List ℕ
cwd_text m = text_at cwd_max 0 m

-- a text with its final 0 at a place of the buffer
unfoldable pub put_text : ℕ → List ℕ → Memory → Memory
put_text at p m = write8 (at + length p) 0 (put_bytes at p m)

unfoldable pub cut_path : List ℕ → List ℕ
cut_path p = take (cwd_max - 1) p

unfoldable pub ends_with_slash : List ℕ → Bool
ends_with_slash [] = false
ends_with_slash (c ∷ []) = c == b'/'
ends_with_slash (c ∷ d ∷ p) = ends_with_slash (d ∷ p)

-- The path goes behind the old one, with a '/' between them where there is room for it. A path that
-- does not fit is left out; the '/' has then been put over the final 0.
unfoldable pub append_path : List ℕ → Memory → Memory
append_path p m =
    let n = length (cwd_text m) in
    let wants = ltb 1 n && not (ends_with_slash (cwd_text m)) && ltb (n + 1) cwd_max in
    let at = if wants then n + 1 else n in
    let m' = if wants then write8 n b'/' m else m in
    if ltb (at + length p) cwd_max then put_text at p m' else m'

unfoldable pub clusters_of : ℕ → ℕ → ℕ → ℕ
clusters_of spc data_secs entries =
    let clusters = if spc == 0 then 0 else data_secs / spc in
    if clusters == 0 || ltb entries clusters
    then (if ltb 2 entries then entries - 2 else 1000)
    else clusters

abbrev pub fat_getcwd : {D : Type 0} → ℕ → Fat D → List ℕ
fat_getcwd maxlen f = text_at (maxlen - 1) 0 f.cwd_path

-- what `fat_mount` takes from the first sector of the partition
unfoldable pub geometry : {D : Type 0} → Memory → Fat D → Fat D
geometry s f =
    let fat_size = if read16 s 22 == 0 then read32 s 36 else read16 s 22 in
    let fat_start = (f.part_lba + read16 s 14) % 2 ^ 32 in
    let data_start =
      (fat_start + s 16 * fat_size % 2 ^ 32 + (read16 s 17 * 32 + 511) / 512) % 2 ^ 32 in
    let totsec = if read32 s 32 == 0 then read16 s 19 else read32 s 32 in
    let before = (data_start + 2 ^ 32 - f.part_lba) % 2 ^ 32 in
    record f {
      bytes_per_sec = read16 s 11;
      sec_per_cluster = s 13;
      num_fats = s 16;
      root_cluster = read32 s 44;
      fat_size_sectors = fat_size;
      fat_start = fat_start;
      data_start = data_start;
      total_clusters = clusters_of (s 13) (totsec - before) (fat_size * 512 % 2 ^ 32 / 4);
      cwd_cluster = read32 s 44;
      cwd_path = put_text 0 (text "/") f.cwd_path;
      mounted = true;
    }

-- what is set before `bytes_per_sec` is tested
unfoldable pub half_geometry : {D : Type 0} → Memory → Fat D → Fat D
half_geometry s f = record f {
  bytes_per_sec = read16 s 11;
  sec_per_cluster = s 13;
  num_fats = s 16;
  root_cluster = read32 s 44;
}

module _ {D : Type 0} (k : Disk D) where
  abbrev pub chose : Backend → Fat D → Fat D
  chose nvme f = record f { use_nvme = true; use_ahci = false }
  chose ahci f = record f { use_nvme = false; use_ahci = true }
  chose ata f = record f { use_nvme = false; use_ahci = false }

  unfoldable pub start_backend : Backend → M D (Unit {0})
  start_backend b f =
      let r = k.start b f.disk in
      elim r.0 [
        | ok ↦ done tt (record (chose b f) { disk = r.1 })
        | fail ↦ fails (record (chose ata f) { disk = r.1 })
      ]

  -- a drive that starts and whose first sector can be read
  unfoldable pub try_backend : Backend → M D (Unit {0})
  try_backend b = start_backend b >> read_abs k 0

  unfoldable pub find_backend : M D (Unit {0})
  find_backend = attempt (try_backend nvme) >>= λ a. elim a [
    | true ↦ pure tt
    | false ↦
        attempt (try_backend ahci) >>= λ b. elim b [ true ↦ pure tt | false ↦ try_backend ata ]
  ]

  unfoldable pub set_part : ℕ → M D (Unit {0})
  set_part lba f = done tt (record f { part_lba = lba })

  -- the first partition of a GPT, or of the table in the first sector
  unfoldable pub find_part : M D (Unit {0})
  find_part = get_state >>= λ f. elim (f.sector 0x1C2 == 0xEE) [
    | false ↦ set_part (read32 f.sector 0x1C6)
    | true ↦
        read_abs k 1
        >> (get_state >>= λ g.
            read_abs k (read32 g.sector 72) >> (get_state >>= λ h. set_part (read32 h.sector 32)))
  ]

  unfoldable pub read_geometry : M D (Unit {0})
  read_geometry = do
    f ← get_state
    read_abs k f.part_lba
    g ← get_state
    if read16 g.sector 11 == 512
        then (λ h. done tt (geometry h.sector h))
        else (λ h. fails (half_geometry h.sector h))

  unfoldable pub fat_mount : M D (Unit {0})
  fat_mount f =
      (find_backend
          >> (get_state >>= λ g.
              when_ok (g.sector 510 == 0x55 && g.sector 511 == 0xAA) (find_part >> read_geometry)))
        (record f { mounted = false; use_ahci = false; use_nvme = false })

  -- `cwd_cluster` and `cwd_path` once the path has been found
  unfoldable pub enter_path : List ℕ → Target → Fat D → Fat D
  enter_path path t f =
      if begins_with_slash path
      then record f { cwd_cluster = t.cluster; cwd_path = put_text 0 (cut_path path) f.cwd_path }
      else if streq path (text "..")
      then record f { cwd_cluster = f.root_cluster; cwd_path = put_text 0 (text "/") f.cwd_path }
      else if length path == 0
      then record f { cwd_cluster = t.cluster }
      else record f { cwd_cluster = t.cluster; cwd_path = append_path path f.cwd_path }

  unfoldable pub fat_chdir : ℕ → List ℕ → M D (Unit {0})
  fat_chdir fuel path f =
      when_ok f.mounted
        (resolve_full k fuel path >>= λ t. when_ok t.is_dir (λ h. done tt (enter_path path t h))) f
