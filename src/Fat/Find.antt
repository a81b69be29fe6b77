-- ===== src/Fat/Find.antt =====
-- kernel/fs/fat.c: dir_find and dir_alloc_slot against a search through the list of the sectors of a
-- directory.
use gnuwindows.Base.{
  ℕ, zero, suc, ◌+◌, ◌%◌, ◌^◌, ◌≤◌, ◌<◌, ◌⊎◌, inl, inr, ◌≡◌, ◌≢◌, refl, sym, ap, ◌∙◌, Bool, true,
  false, Option, none, some, List, [], ◌∷◌, ◌++◌, length, Memory, arith,
}
use gnuwindows.Fat.Disk.{
  Outcome, done, ◌>>=◌, pure, attempt, bind_done, attempt_done, Disk, Fat, read_abs,
}
use gnuwindows.Fat.Table.{is_cluster, fat_get}
use gnuwindows.Fat.Entries.{
  Entry, Scan, absent, more, hit, scan_entries, free_entry, scan_sectors, dir_find,
}
use gnuwindows.Fat.Drive.{Works, Fits, table_sector, at, sec, fat_at, read_abs_lem}
use gnuwindows.Fat.Cells.{fat_get_lem}
use gnuwindows.Fat.Stored.{IsCluster, lba_of, lba_of-le, cluster_to_lba_eq}

abbrev pub then_scan : Scan → Scan → Scan
then_scan more r = r
then_scan absent r = absent
then_scan (hit e) r = hit e

-- the first sector that ends the search
unfoldable pub scan_all : (ℕ → Memory) → List ℕ → List ℕ → Scan
scan_all view name [] = more
scan_all view name (l ∷ ls) = then_scan (scan_entries name l 16 0 (view l)) (scan_all view name ls)

abbrev pub found : Scan → Option Entry
found more = none
found absent = none
found (hit e) = some e

abbrev pub then_free : ℕ → Option ℕ → Option (ℕ × ℕ) → Option (ℕ × ℕ)
then_free l none r = r
then_free l (some i) r = some (l, i)

-- the first entry that is free
unfoldable pub free_all : (ℕ → Memory) → List ℕ → Option (ℕ × ℕ)
free_all view [] = none
free_all view (l ∷ ls) = then_free l (free_entry 16 0 (view l)) (free_all view ls)

-- the sectors of a cluster, and those of some clusters
unfoldable pub range : ℕ → ℕ → List ℕ
range zero lba = []
range (suc n) lba = lba ∷ range n (lba + 1)

unfoldable pub sectors_of : {D : Type 0} → Fat D → List ℕ → List ℕ
sectors_of f [] = []
sectors_of f (c ∷ cs) = range f.sec_per_cluster (lba_of f c) ++ sectors_of f cs

-- the chain of a directory
pub data Dir {D : Type 0} {k : Disk D} (w : Works k) (f : Fat D) (d : D) : ℕ → List ℕ → Type 0 where
  dir_end : {c : ℕ} → is_cluster c ≡ false → Dir w f d c []
  dir_link :
      {c next : ℕ} {cs : List ℕ}
      → IsCluster f c
      → fat_at w f d c ≢ 0
      → fat_at w f d c ≡ next
      → Dir w f d next cs
      → Dir w f d c (c ∷ cs)

Scan-cases : (q : Scan) → (q ≡ more) ⊎ ((q ≡ absent) ⊎ ((e : Entry) × (q ≡ hit e)))
Scan-cases more = inl refl
Scan-cases absent = inr (inl refl)
Scan-cases (hit e) = inr (inr (e, refl))

then_scan_assoc : (a b r : Scan) → then_scan (then_scan a b) r ≡ then_scan a (then_scan b r)
then_scan_assoc more b r = refl
then_scan_assoc absent b r = refl
then_scan_assoc (hit e) b r = refl

scan_all-append :
    (view : ℕ → Memory) (name ls ms : List ℕ)
    → scan_all view name (ls ++ ms) ≡ then_scan (scan_all view name ls) (scan_all view name ms)
unfolding scan_all
scan_all-append view name [] ms = refl
scan_all-append view name (l ∷ ls) ms =
    ap (then_scan (scan_entries name l 16 0 (view l))) (scan_all-append view name ls ms)
    ∙ sym (
        then_scan_assoc (scan_entries name l 16 0 (view l)) (scan_all view name ls)
          (scan_all view name ms))

abbrev pub or_free : Option (ℕ × ℕ) → Option (ℕ × ℕ) → Option (ℕ × ℕ)
or_free none r = r
or_free (some p) r = some p

then_free_assoc :
    (l : ℕ) (a : Option ℕ) (b r : Option (ℕ × ℕ))
    → then_free l a (or_free b r) ≡ or_free (then_free l a b) r
then_free_assoc l none b r = refl
then_free_assoc l (some i) b r = refl

pub free_all-append :
    (view : ℕ → Memory) (ls ms : List ℕ)
    → free_all view (ls ++ ms) ≡ or_free (free_all view ls) (free_all view ms)
unfolding free_all
free_all-append view [] ms = refl
free_all-append view (l ∷ ls) ms =
    ap (then_free l (free_entry 16 0 (view l))) (free_all-append view ls ms)
    ∙ then_free_assoc l (free_entry 16 0 (view l)) (free_all view ls) (free_all view ms)

module _ {D : Type 0} {k : Disk D} (w : Works k) (f : Fat D) (r : Fits w f) where
  next_sector : (lba : ℕ) → lba < w.size → (lba + 1) % 2 ^ 32 ≡ lba + 1
  next_sector lba h = omega (arith, r.size_below)

  read_try :
      {A : Type 0} (lba : ℕ) (m : Bool → Fat D → Outcome (Fat D) A) (s : Memory) (d : D)
      → lba < w.size
      → (attempt (read_abs k lba) >>= m) (at w f s d) ≡ m true (at w f (sec w f d lba) d)
  read_try lba m s d h =
      bind_done (attempt (read_abs k lba)) m (at w f s d)
        (attempt_done (read_abs k lba) (at w f s d) (read_abs_lem w f lba s d h))

  abbrev after_scan : List ℕ → ℕ → ℕ → Scan → Fat D → Outcome (Fat D) Scan
  after_scan name n lba q = elim q [
    | more ↦ scan_sectors k name n ((lba + 1) % 2 ^ 32)
    | absent ↦ pure absent
    | hit e ↦ pure (hit e)
  ]

  scan_first :
      (name : List ℕ) (n lba : ℕ) (s : Memory) (d : D) (q : Scan)
      → lba < w.size
      → scan_entries name lba 16 0 (sec w f d lba) ≡ q
      → scan_sectors k name (suc n) lba (at w f s d)
        ≡ after_scan name n lba q (at w f (sec w f d lba) d)
  unfolding scan_sectors
  scan_first name n lba s d q h e =
      read_try lba _ s d h ∙ ap (λ u. after_scan name n lba u (at w f (sec w f d lba) d)) e

  scan_sectors_lem :
      (name : List ℕ) (n lba : ℕ) (s : Memory) (d : D)
      → lba + n ≤ w.size
      → (s' : Memory) × (scan_sectors k name n lba (at w f s d)
          ≡ done (scan_all (sec w f d) name (range n lba)) (at w f s' d))
  unfolding scan_sectors scan_all range
  scan_sectors_lem name zero lba s d h = (s, refl)
  scan_sectors_lem name (suc n) lba s d h =
      let m = sec w f d lba in
      let (s', rest) = scan_sectors_lem name n (lba + 1) m d (omega arith) in
      elim (Scan-cases (scan_entries name lba 16 0 m)) [
        | inl e ↦ (
          s',
          scan_first name n lba s d more (omega arith) e
              ∙ rw (next_sector lba (omega arith)) rest
              ∙ ap
                  (λ q.
                    done (then_scan q (scan_all (sec w f d) name (range n (lba + 1))))
                      (at w f s' d))
                  (sym e),
        )
        | inr (inl e) ↦ (m, scan_first name n lba s d absent (omega arith) e ∙ rw e refl)
        | inr (inr (x, e)) ↦ (m, scan_first name n lba s d (hit x) (omega arith) e ∙ rw e refl)
      ]

  is_cluster_of : (c : ℕ) → IsCluster f c → is_cluster c ≡ true
  is_cluster_of c h = ground (arith, r.few_clusters, h.two_le, h.c-lt)

  abbrev after_cluster : List ℕ → ℕ → ℕ → Scan → Fat D → Outcome (Fat D) (Option Entry)
  after_cluster name n c q = elim q [
    | absent ↦ pure none
    | hit e ↦ pure (some e)
    | more ↦ fat_get k c >>= λ next. dir_find k n next name
  ]

  scan_cluster :
      (name : List ℕ) (n c : ℕ) (s s1 : Memory) (d : D) (q : Scan)
      → IsCluster f c
      → scan_sectors k name f.sec_per_cluster (lba_of f c) (at w f s d) ≡ done q (at w f s1 d)
      → dir_find k (suc n) c name (at w f s d) ≡ after_cluster name n c q (at w f s1 d)
  unfolding dir_find
  scan_cluster name n c s s1 d q h e =
      rw (is_cluster_of c h, dir_find, cluster_to_lba_eq w f r c s d h)
        (bind_done (scan_sectors k name f.sec_per_cluster (lba_of f c)) _ (at w f s d) e)

  find_none :
      (n c : ℕ) (name : List ℕ) (s : Memory) (d : D)
      → is_cluster c ≡ false
      → dir_find k (suc n) c name (at w f s d) ≡ done none (at w f s d)
  unfolding dir_find
  find_none n c name s d e = rw (e, dir_find) refl

  both :
      (name ls ms : List ℕ) (q : Scan) (s : Memory) (d : D)
      → scan_all (sec w f d) name ls ≡ q
      → done (found (then_scan q (scan_all (sec w f d) name ms))) (at w f s d)
        ≡ done (found (scan_all (sec w f d) name (ls ++ ms))) (at w f s d)
  both name ls ms q s d e =
      ap (λ u. done (found (then_scan u (scan_all (sec w f d) name ms))) (at w f s d)) (sym e)
      ∙ ap (λ u. done (found u) (at w f s d)) (sym (scan_all-append (sec w f d) name ls ms))

  -- On a drive that works, in a directory whose chain has fewer clusters than the fuel, dir_find gives what the search through
  -- the list of its sectors gives, and leaves the drive alone.
  pub dir_find-scan_all :
      (name : List ℕ) (n c : ℕ) (cs : List ℕ) (s : Memory) (d : D)
      → length cs < n
      → Dir w f d c cs
      → (s' : Memory) × (dir_find k n c name (at w f s d)
          ≡ done (found (scan_all (sec w f d) name (sectors_of f cs))) (at w f s' d))
  unfolding sectors_of scan_all
  dir_find-scan_all name zero c cs s d en dir = absurd (omega arith)
  dir_find-scan_all name (suc n) c [] s d en (dir_end e) = (s, find_none n c name s d e)
  dir_find-scan_all name (suc n) c (c' ∷ cs) s d en (dir_link h u e dir) =
      let ls = range f.sec_per_cluster (lba_of f c) in
      let (s1, a) =
        scan_sectors_lem name f.sec_per_cluster (lba_of f c) s d (lba_of-le w f r c h) in
      let s2 = sec w f d (table_sector f c) in
      let (s3, b) = dir_find-scan_all name n (fat_at w f d c) cs s2 d (omega arith) (rw e dir) in
      elim (Scan-cases (scan_all (sec w f d) name ls)) [
        | inl q ↦ (
          s3,
          scan_cluster name n c s s1 d more h (a ∙ ap (λ u. done u (at w f s1 d)) q)
              ∙ bind_done (fat_get k c) _ (at w f s1 d) (fat_get_lem w f r c s1 d h.c-lt)
              ∙ b
              ∙ both name ls (sectors_of f cs) more s3 d q,
        )
        | inr (inl q) ↦ (
          s1,
          scan_cluster name n c s s1 d absent h (a ∙ ap (λ u. done u (at w f s1 d)) q)
              ∙ both name ls (sectors_of f cs) absent s1 d q,
        )
        | inr (inr (x, q)) ↦ (
          s1,
          scan_cluster name n c s s1 d (hit x) h (a ∙ ap (λ u. done u (at w f s1 d)) q)
              ∙ both name ls (sectors_of f cs) (hit x) s1 d q,
        )
      ]
