-- ===== src/Fat/Stored.antt =====
-- kernel/fs/fat.c: the bytes of a file in a chain of clusters, as read_chain reads them.
use gnuwindows.Base.{
  ℕ, zero, suc, ◌+◌, ◌-◌, ◌*◌, ◌%◌, ◌^◌, ◌≤◌, ◌<◌, ◌≡◌, refl, sym, ap, ◌∙◌, Bool, true, false, ltb,
  ◌&&◌, List, [], ◌++◌, length, length-append, length-take, take, take_none, Memory, arith,
}
use native.Mathlib.Nat.{mul-le-mul_right, suc-mul}
use gnuwindows.Fat.Disk.{done, bind_done, Disk, Fat, cluster_to_lba}
use gnuwindows.Fat.Table.{is_cluster, fat_get, end_of_chain}
use gnuwindows.Fat.Chain.{read_cluster, read_chain}
use gnuwindows.Fat.Drive.{Works, Fits, table_sector, at, sec, fat_at}
use gnuwindows.Fat.Cells.{fat_get_lem}
use gnuwindows.Fat.Sectors.{Holds, rest_after, part, read_cluster_lem}
use gnuwindows.Fat.Parts.{part-take, part_pos}

-- a cluster of the drive
pub record IsCluster {D : Type 0} (f : Fat D) (c : ℕ) : Type 0 where
  pub two_le : 2 ≤ c
  pub c-lt : c < f.total_clusters + 2

abbrev pub lba_of : {D : Type 0} → Fat D → ℕ → ℕ
lba_of f c = f.data_start + (c - 2) * f.sec_per_cluster

-- The chain that begins at a cluster holds the bytes.
pub data Stored {D : Type 0} {k : Disk D} (w : Works k) (f : Fat D) (d : D)
    : ℕ → List ℕ → Type 0 where
  last_cluster :
      {c : ℕ} {src : List ℕ}
      → IsCluster f c
      → Holds w f d f.sec_per_cluster (lba_of f c) src
      → rest_after f.sec_per_cluster src ≡ []
      → fat_at w f d c ≡ end_of_chain
      → Stored w f d c src
  one_cluster :
      {c next : ℕ} {src : List ℕ}
      → IsCluster f c
      → Holds w f d f.sec_per_cluster (lba_of f c) src
      → fat_at w f d c ≡ next
      → Stored w f d next (rest_after f.sec_per_cluster src)
      → Stored w f d c src

suc_mul : (n m : ℕ) → suc n * m ≡ n * m + m
suc_mul n m = suc-mul n m

and_zero : (b : Bool) → (b && ltb 0 0) ≡ false
and_zero b = ground arith

sum_room :
    (bytes rest src : List ℕ) (left : ℕ)
    → left ≤ length src
    → bytes ++ take (left - length bytes) rest ≡ take left src
    → left - length bytes ≤ length rest
sum_room bytes rest src left le sum =
    let e : length (bytes ++ take (left - length bytes) rest) ≡ length (take left src) =
      ap length sum in
    omega (
      arith,
      length-append bytes (take (left - length bytes) rest),
      length-take (left - length bytes) rest,
      length-take left src,
    )

module _ {D : Type 0} {k : Disk D} (w : Works k) (f : Fat D) (r : Fits w f) where
  pub lba_of-le : (c : ℕ) → IsCluster f c → lba_of f c + f.sec_per_cluster ≤ w.size
  lba_of-le c h = omega (
    arith,
    r.data_below,
    suc_mul (c - 2) f.sec_per_cluster,
    mul-le-mul_right {m = suc (c - 2)} {n = f.total_clusters} f.sec_per_cluster (omega arith),
  )

  pub cluster_to_lba_eq :
      (c : ℕ) (s : Memory) (d : D) → IsCluster f c → cluster_to_lba (at w f s d) c ≡ lba_of f c
  unfolding cluster_to_lba
  cluster_to_lba_eq c s d h =
      let e : (c + 2 ^ 32 - 2) % 2 ^ 32 ≡ c - 2 = omega (arith, r.few_clusters) in
      rw e (omega (arith, lba_of-le c h, r.size_below, r.has_sectors))

  read_stop :
      (n cl left : ℕ) (s : Memory) (d : D)
      → 0 < n
      → (is_cluster cl && ltb 0 left) ≡ false
      → read_chain k n cl left (at w f s d) ≡ done [] (at w f s d)
  unfolding read_chain
  read_stop zero cl left s d pos e = absurd (omega arith)
  read_stop (suc n) cl left s d pos e = rw (e, read_chain) refl

  read_more :
      (n c left : ℕ) (bytes rest : List ℕ) (s s1 s2 : Memory) (d : D)
      → IsCluster f c
      → 0 < left
      → read_cluster k f.sec_per_cluster (lba_of f c) left (at w f s d) ≡ done bytes (at w f s1 d)
      → read_chain k n
          (fat_at w f d c)
          (left - length bytes)
          (at w f (sec w f d (table_sector f c)) d)
        ≡ done rest (at w f s2 d)
      → read_chain k (suc n) c left (at w f s d) ≡ done (bytes ++ rest) (at w f s2 d)
  unfolding read_chain
  read_more n c left bytes rest s s1 s2 d h pos a b =
      let go : (is_cluster c && ltb 0 left) ≡ true = ground (arith, r.few_clusters) in
      rw (go, read_chain, cluster_to_lba_eq c s d h)
        (bind_done (read_cluster k f.sec_per_cluster (lba_of f c) left) _ (at w f s d) a
          ∙ bind_done (fat_get k c) _ (at w f s1 d) (fat_get_lem w f r c s1 d h.c-lt)
          ∙ bind_done (read_chain k n (fat_at w f d c) (left - length bytes)) _
              (at w f (sec w f d (table_sector f c)) d) b)

  part_has :
      (left : ℕ) (src : List ℕ)
      → 0 < left
      → left ≤ length src
      → 0 < length (part f.sec_per_cluster left src)
  part_has left src pos le =
      let e : suc (f.sec_per_cluster - 1) ≡ f.sec_per_cluster = omega (arith, r.has_sectors) in
      rw e at (part_pos (f.sec_per_cluster - 1) left src pos le)

  -- Of a chain that holds some bytes read_chain reads as many as are wanted.
  pub read_chain_lem :
      (n c left : ℕ) (src : List ℕ) (s : Memory) (d : D)
      → left < n
      → left ≤ length src
      → Stored w f d c src
      → (s' : Memory) × (read_chain k n c left (at w f s d) ≡ done (take left src) (at w f s' d))
  read_chain_lem zero c left src s d en le st = absurd (omega arith)
  read_chain_lem (suc n) c zero src s d en le st =
      (s, read_stop (suc n) c 0 s d (omega arith) (and_zero (is_cluster c)))
  read_chain_lem (suc n) c (suc left) src s d en le (last_cluster h held none_left e) =
      let (s1, a) =
        read_cluster_lem w f r.size_below f.sec_per_cluster (lba_of f c) (suc left) src s d
          (lba_of-le c h) le held in
      let bytes = part f.sec_per_cluster (suc left) src in
      let s2 = sec w f d (table_sector f c) in
      (
        s2,
        read_more n c (suc left) bytes [] s s1 s2 d h (omega arith) a (
              read_stop n (fat_at w f d c) (suc left - length bytes) s2 d (omega arith) (rw e refl))
            ∙ ap (λ q. done q (at w f s2 d))
                (ap (λ q. bytes ++ q) (sym (take_none (suc left - length bytes)))
                  ∙ ap (λ q. bytes ++ take (suc left - length bytes) q) (sym none_left)
                  ∙ part-take f.sec_per_cluster (suc left) src le),
      )
  read_chain_lem (suc n) c (suc left) src s d en le (one_cluster h held e st) =
      let (s1, a) =
        read_cluster_lem w f r.size_below f.sec_per_cluster (lba_of f c) (suc left) src s d
          (lba_of-le c h) le held in
      let bytes = part f.sec_per_cluster (suc left) src in
      let rest = rest_after f.sec_per_cluster src in
      let s2 = sec w f d (table_sector f c) in
      let pos = part_has (suc left) src (omega arith) le in
      let sum = part-take f.sec_per_cluster (suc left) src le in
      let room : suc left - length bytes ≤ length rest =
        sum_room bytes rest src (suc left) le sum in
      let (s3, b) =
        read_chain_lem n (fat_at w f d c) (suc left - length bytes) rest s2 d (omega arith) room
          (rw e st) in
      (
        s3,
        read_more n c (suc left) bytes (take (suc left - length bytes) rest) s s1 s3 d h
              (omega arith) a b
            ∙ ap (λ q. done q (at w f s3 d)) sum,
      )
