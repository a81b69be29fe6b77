-- ===== src/Fat/Alloc.antt =====
-- kernel/fs/fat.c: fat_alloc_cluster on a drive that works.
use gnuwindows.Base.{
  ℕ, zero, suc, ◌+◌, ◌-◌, ◌%◌, ◌^◌, ◌≤◌, ◌<◌, ◌⊎◌, inl, inr, ◌≡◌, ◌≢◌, refl, Bool-cases, ==_iff,
  ◌==◌, Memory, arith,
}
use gnuwindows.Fat.Disk.{Outcome, fails, ◌>>=◌, ◌>>◌, pure, bind_done, Disk, Fat}
use gnuwindows.Fat.Table.{fat_set, alloc_from, fat_alloc_cluster, end_of_chain}
use gnuwindows.Fat.Drive.{Works, Fits, table_sector, at, sec, fat_at}
use gnuwindows.Fat.Cells.{Changed, Gives, fat_get_lem, fat_set_lem}

-- `c` is the first free cluster from `from` on; its entry is then the mark of the end of a chain, and
-- nothing else changes in the table or in the clusters.
pub record Allocated {D : Type 0} {k : Disk D} (w : Works k) (f : Fat D) (from : ℕ) (d : D) (c : ℕ)
    (d' : D) : Type 0 where
  pub from_le : from ≤ c
  pub below : c < f.total_clusters + 2
  pub was_free : fat_at w f d c ≡ 0
  pub first : (x : ℕ) → from ≤ x → x < c → fat_at w f d x ≢ 0
  pub change : Changed w f c end_of_chain d d'

-- no cluster is free, and nothing has changed on the drive
abbrev pub NoneFree :
    {D A : Type 0} {k : Disk D} → Works k → Fat D → ℕ → D → Outcome (Fat D) A → Type 0
NoneFree w f from d o =
    (s : Memory) × (o ≡ fails (at w f s d))
    × ((x : ℕ) → from ≤ x → x < f.total_clusters + 2 → fat_at w f d x ≢ 0)

abbrev pub Allocates :
    {D : Type 0} {k : Disk D} → Works k → Fat D → ℕ → D → Outcome (Fat D) ℕ → Type 0
Allocates {D} w f from d o =
    ((c : ℕ) × Gives w f (λ s d'. Allocated w f from d c d') c o) ⊎ NoneFree w f from d o

module _ {D : Type 0} {k : Disk D} (w : Works k) (f : Fat D) (r : Fits w f) where
  set_then :
      (c : ℕ) (s : Memory) (d : D)
      → c < f.total_clusters + 2
      → fat_at w f d c ≡ 0
      → Gives w f
          (λ s' d'. Allocated w f c d c d')
          c
          ((fat_set k c end_of_chain >> pure c) (at w f s d))
  set_then c s d h z =
      let (s', d', e, ch) = fat_set_lem w f r c end_of_chain d h s in
      (
        s',
        d',
        bind_done (fat_set k c end_of_chain) _ (at w f s d) e,
        record {
          from_le = omega arith;
          below = h;
          was_free = z;
          first = λ x lo hi. absurd (omega arith);
          change = ch;
        },
      )

  Allocates-step :
      (c : ℕ) (d : D) (o : Outcome (Fat D) ℕ)
      → fat_at w f d c ≢ 0
      → Allocates w f (c + 1) d o
      → Allocates w f c d o
  Allocates-step c d o ne (inl (c', (s, d', e, a))) = inl (
    c',
    (
      s,
      d',
      e,
      record {
        from_le = omega (arith, a.from_le);
        below = a.below;
        was_free = a.was_free;
        first = λ x lo hi. elim (Bool-cases (x == c)) [
          | inl here ↦ rw ((==_iff x c).0 here) ne
          | inr past ↦ a.first x (ground arith) hi
        ];
        change = a.change;
      },
    ),
  )
  Allocates-step c d o ne (inr (s, e, all)) = inr (
    s,
    e,
    λ x lo hi. elim (Bool-cases (x == c)) [
      | inl here ↦ rw ((==_iff x c).0 here) ne
      | inr past ↦ all x (ground arith) hi
    ],
  )

  alloc_from_lem :
      (n c : ℕ) (s : Memory) (d : D)
      → c + n ≡ f.total_clusters + 2
      → Allocates w f c d (alloc_from k n c (at w f s d))
  unfolding alloc_from
  alloc_from_lem zero c s d h = inr (s, refl, λ x lo hi. absurd (omega arith))
  alloc_from_lem (suc n) c s d h =
      let got = fat_get_lem w f r c s d (omega arith) in
      let s' = sec w f d (table_sector f c) in
      elim (Bool-cases (fat_at w f d c == 0)) [
        | inl e ↦ rw (got, ◌>>=◌) (rw e (inl (c, set_then c s' d (omega arith) ((==_iff _ _).0 e))))
        | inr e ↦
            rw (got, ◌>>=◌)
              (rw e (
                Allocates-step c d _ (λ z. ground arith)
                  (alloc_from_lem n (c + 1) s' d (omega arith))))
      ]

  -- On a drive that works and has clusters, fat_alloc_cluster takes the first free one from 3 on and changes only its
  -- entry, or there is none, and it fails and changes nothing.
  pub fat_alloc_cluster-Allocates :
      (s : Memory) (d : D)
      → 0 < f.total_clusters
      → Allocates w f 3 d (fat_alloc_cluster k (at w f s d))
  unfolding fat_alloc_cluster
  fat_alloc_cluster-Allocates s d pos =
      alloc_from_lem ((f.total_clusters + 2) % 2 ^ 32 - 3) 3 s d (omega (arith, r.few_clusters))
