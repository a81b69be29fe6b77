-- ===== src/Fat/Free.antt =====
-- kernel/fs/fat.c: dir_alloc_slot of a directory that has a free entry.
use gnuwindows.Base.{
  some_inv, Option-cases, ℕ, zero, suc, ◌+◌, ◌%◌, ◌^◌, ◌≤◌, ◌<◌, inl, inr, ◌≡◌, refl, sym, ap, ◌∙◌,
  true, false, leb, Option, none, some, List, [], ◌∷◌, length, Memory, arith,
}
use gnuwindows.Fat.Disk.{Outcome, done, ◌>>=◌, pure, bind_done, Disk, Fat, read_abs}
use gnuwindows.Fat.Table.{fat_get}
use gnuwindows.Fat.Entries.{free_entry, free_in_sectors, extend_dir, dir_alloc_slot}
use gnuwindows.Fat.Drive.{Works, Fits, table_sector, at, sec, fat_at, read_abs_lem}
use gnuwindows.Fat.Cells.{fat_get_lem}
use gnuwindows.Fat.Stored.{IsCluster, lba_of, lba_of-le, cluster_to_lba_eq}
use gnuwindows.Fat.Find.{
  then_free, or_free, free_all, free_all-append, range, sectors_of, Dir, dir_end, dir_link,
}

module _ {D : Type 0} {k : Disk D} (w : Works k) (f : Fat D) (r : Fits w f) where
  next_sector : (lba : ℕ) → lba < w.size → (lba + 1) % 2 ^ 32 ≡ lba + 1
  next_sector lba h = omega (arith, r.size_below)

  abbrev after_free : ℕ → ℕ → Option ℕ → Fat D → Outcome (Fat D) (Option (ℕ × ℕ))
  after_free n lba q = elim q [
    | some i ↦ pure (some (lba, i))
    | none ↦ free_in_sectors k n ((lba + 1) % 2 ^ 32)
  ]

  free_first :
      (n lba : ℕ) (s : Memory) (d : D) (q : Option ℕ)
      → lba < w.size
      → free_entry 16 0 (sec w f d lba) ≡ q
      → free_in_sectors k (suc n) lba (at w f s d) ≡ after_free n lba q (at w f (sec w f d lba) d)
  unfolding free_in_sectors
  free_first n lba s d q h e =
      bind_done (read_abs k lba) _ (at w f s d) (read_abs_lem w f lba s d h)
      ∙ ap (λ u. after_free n lba u (at w f (sec w f d lba) d)) e

  free_in_sectors_lem :
      (n lba : ℕ) (s : Memory) (d : D)
      → lba + n ≤ w.size
      → (s' : Memory) × (free_in_sectors k n lba (at w f s d)
          ≡ done (free_all (sec w f d) (range n lba)) (at w f s' d))
  unfolding free_in_sectors free_all range
  free_in_sectors_lem zero lba s d h = (s, refl)
  free_in_sectors_lem (suc n) lba s d h =
      let m = sec w f d lba in
      let (s', rest) = free_in_sectors_lem n (lba + 1) m d (omega arith) in
      elim (Option-cases (free_entry 16 0 m)) [
        | inl e ↦ (
          s',
          free_first n lba s d none (omega arith) e
              ∙ rw (next_sector lba (omega arith)) rest
              ∙ ap
                  (λ q.
                    done (then_free lba q (free_all (sec w f d) (range n (lba + 1)))) (at w f s' d))
                  (sym e),
        )
        | inr (i, e) ↦ (m, free_first n lba s d (some i) (omega arith) e ∙ rw e refl)
      ]

  abbrev after_slots : ℕ → ℕ → Option (ℕ × ℕ) → Fat D → Outcome (Fat D) (ℕ × ℕ)
  after_slots n c q = elim q [
    | some slot ↦ pure slot
    | none ↦ fat_get k c >>= λ next. elim (leb 0x0FFFFFF8 next) [
      | true ↦ extend_dir k c >>= λ nc. dir_alloc_slot k n nc
      | false ↦ dir_alloc_slot k n next
    ]
  ]

  slots_cluster :
      (n c : ℕ) (s s1 : Memory) (d : D) (q : Option (ℕ × ℕ))
      → IsCluster f c
      → free_in_sectors k f.sec_per_cluster (lba_of f c) (at w f s d) ≡ done q (at w f s1 d)
      → dir_alloc_slot k (suc n) c (at w f s d) ≡ after_slots n c q (at w f s1 d)
  unfolding dir_alloc_slot
  slots_cluster n c s s1 d q h e =
      rw (cluster_to_lba_eq w f r c s d h)
        (bind_done (free_in_sectors k f.sec_per_cluster (lba_of f c)) _ (at w f s d) e)

  -- a free entry further on in the directory, so the chain goes on
  goes_on :
      (c : ℕ) (cs : List ℕ) (d : D) (slot : ℕ × ℕ)
      → Dir w f d c cs
      → free_all (sec w f d) (sectors_of f cs) ≡ some slot
      → leb 0x0FFFFFF8 c ≡ false
  unfolding sectors_of free_all
  goes_on c [] d slot (dir_end e) q = cc q
  goes_on c (c' ∷ cs) d slot (dir_link h u e dir) q = ground (arith, r.few_clusters, h.c-lt)

  -- dir_alloc_slot takes the first free entry of a directory that has one.
  pub dir_alloc_slot-free_all :
      (n c : ℕ) (cs : List ℕ) (slot : ℕ × ℕ) (s : Memory) (d : D)
      → length cs < n
      → Dir w f d c cs
      → free_all (sec w f d) (sectors_of f cs) ≡ some slot
      → (s' : Memory) × (dir_alloc_slot k n c (at w f s d) ≡ done slot (at w f s' d))
  unfolding sectors_of free_all
  dir_alloc_slot-free_all zero c cs slot s d en dir e = absurd (omega arith)
  dir_alloc_slot-free_all (suc n) c [] slot s d en (dir_end x) e = cc e
  dir_alloc_slot-free_all (suc n) c (c' ∷ cs) slot s d en (dir_link h u x dir) e =
      let ls = range f.sec_per_cluster (lba_of f c) in
      let split = sym (free_all-append (sec w f d) ls (sectors_of f cs)) ∙ e in
      let (s1, a) = free_in_sectors_lem f.sec_per_cluster (lba_of f c) s d (lba_of-le w f r c h) in
      let s2 = sec w f d (table_sector f c) in
      elim (Option-cases (free_all (sec w f d) ls)) [
        | inl q ↦
            let later : free_all (sec w f d) (sectors_of f cs) ≡ some slot =
              ap (λ u. or_free u (free_all (sec w f d) (sectors_of f cs))) (sym q) ∙ split in
            let dir' : Dir w f d (fat_at w f d c) cs = rw x dir in
            let (s3, b) =
              dir_alloc_slot-free_all n (fat_at w f d c) cs slot s2 d (omega arith) dir' later in
            (
              s3,
              slots_cluster n c s s1 d none h (a ∙ ap (λ u. done u (at w f s1 d)) q)
                  ∙ bind_done (fat_get k c) _ (at w f s1 d) (fat_get_lem w f r c s1 d h.c-lt)
                  ∙ rw (goes_on (fat_at w f d c) cs d slot dir' later) b,
            )
        | inr (p, q) ↦ (
          s1,
          slots_cluster n c s s1 d (some p) h (a ∙ ap (λ u. done u (at w f s1 d)) q)
              ∙ ap (λ u. done u (at w f s1 d))
                  (some_inv
                    (ap (λ u. or_free u (free_all (sec w f d) (sectors_of f cs))) (sym q) ∙ split)),
        )
      ]
