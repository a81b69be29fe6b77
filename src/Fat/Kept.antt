-- ===== src/Fat/Kept.antt =====
-- kernel/fs/fat.c: the sectors of a directory when an entry is stored.
use gnuwindows.Base.{
  ℕ, zero, suc, ◌+◌, ◌≤◌, ◌<◌, ◌⊎◌, inl, inr, ◌≡◌, ◌≢◌, sym, ◌∙◌, ◌==◌, if◌then◌else◌, List, [],
  ◌∷◌, ◌++◌, Memory, arith,
}
use gnuwindows.Fat.Disk.{bind_done, backend, Disk, Fat, read_abs, write_abs}
use gnuwindows.Fat.Files.{store_entry}
use gnuwindows.Fat.Drive.{
  Works, Fits, at, sec, fat_at, written, read_abs_lem, write_abs_lem, sec-written,
}
use gnuwindows.Fat.Cells.{Gives}
use gnuwindows.Fat.Stored.{IsCluster, lba_of}
use gnuwindows.Fat.Find.{free_all, range, sectors_of, Dir, dir_end, dir_link}
use gnuwindows.Fat.Appear.{Changes, changes_none, changes_one, slot_at, free_or_later}

-- a sector of a cluster in use
pub record InUse {D : Type 0} {k : Disk D} (w : Works k) (f : Fat D) (d : D) (l : ℕ) : Type 0 where
  pub of_cluster : ℕ
  pub cluster : IsCluster f of_cluster
  pub used : fat_at w f d of_cluster ≢ 0
  pub from_le : lba_of f of_cluster ≤ l
  pub below : l < lba_of f of_cluster + f.sec_per_cluster

module _ {D : Type 0} {k : Disk D} (w : Works k) (f : Fat D) (r : Fits w f) where
  flush_same : (d : D) (l : ℕ) → sec w f (k.flush d) l ≡ sec w f d l
  unfolding sec
  flush_same d l = w.view_flush (backend f) d l

  pub store_entry_lem :
      (fuel l i : ℕ) (change : Memory → Memory) (s : Memory) (d : D)
      → l < w.size
      → Gives w f
          (λ s' d'. (x : ℕ) → sec w f d' x ≡ (if x == l then change (sec w f d l) else sec w f d x))
          tt
          (store_entry k fuel (l, i) change (at w f s d))
  unfolding store_entry
  store_entry_lem fuel l i change s d h =
      let new = change (sec w f d l) in
      (
        new,
        k.flush (written w f l new d),
        bind_done (read_abs k l) _ (at w f s d) (read_abs_lem w f l s d h)
            ∙ bind_done (write_abs k l) _ (at w f new d) (write_abs_lem w f l new d h),
        λ x. flush_same (written w f l new d) x ∙ sec-written w f l new d x h,
      )

  -- the sectors of a list of sectors, changed in one
  Changes-range :
      (view view' : ℕ → Memory) (l : ℕ) (new : Memory) (n lba : ℕ) (ls : List ℕ)
      → ((x : ℕ) → lba ≤ x → x < lba + n → view' x ≡ (if x == l then new else view x))
      → Changes view view' l new ls
      → Changes view view' l new (range n lba ++ ls)
  unfolding range
  Changes-range view view' l new zero lba ls h c = c
  Changes-range view view' l new (suc n) lba ls h c =
      changes_one (h lba (omega arith) (omega arith)) (
        Changes-range view view' l new n (lba + 1) ls (λ x lo hi. h x (omega arith) (omega arith))
          c)

  pub Dir-Changes :
      (d : D) (view' : ℕ → Memory) (l : ℕ) (new : Memory) (c : ℕ) (cs : List ℕ)
      → ((x : ℕ) → InUse w f d x → view' x ≡ (if x == l then new else sec w f d x))
      → Dir w f d c cs
      → Changes (sec w f d) view' l new (sectors_of f cs)
  unfolding sectors_of
  Dir-Changes d view' l new c [] h (dir_end e) = changes_none
  Dir-Changes d view' l new c (c' ∷ cs) h (dir_link {next = next} hc u e dir) =
      Changes-range (sec w f d) view' l new f.sec_per_cluster (lba_of f c) (sectors_of f cs)
        (λ x lo hi. h x record { of_cluster = c; cluster = hc; used = u; from_le = lo; below = hi })
        (Dir-Changes d view' l new next cs h dir)

  -- The entries of the chain of a directory are in use, so they stay.
  pub Dir-keeps :
      (d d' : D) (c : ℕ) (cs : List ℕ)
      → ((x : ℕ) → x < f.total_clusters + 2 → fat_at w f d x ≢ 0 → fat_at w f d' x ≡ fat_at w f d x)
      → Dir w f d c cs
      → Dir w f d' c cs
  Dir-keeps d d' c [] h (dir_end e) = dir_end e
  Dir-keeps d d' c (c' ∷ cs) h (dir_link {next = next} hc u e dir) =
      let same = h c hc.c-lt u in
      dir_link hc (λ z. u (sym same ∙ z)) (same ∙ e) (Dir-keeps d d' next cs h dir)

  free_in_range :
      (view : ℕ → Memory) (n lba : ℕ) (ls : List ℕ) (l i : ℕ)
      → free_all view (range n lba ++ ls) ≡ slot_at l i
      → ((lba ≤ l) × (l < lba + n)) ⊎ (free_all view ls ≡ slot_at l i)
  unfolding range free_all
  free_in_range view zero lba ls l i e = inr e
  free_in_range view (suc n) lba ls l i e =
      elim (free_or_later view lba (range n (lba + 1) ++ ls) l i e) [
        | inl here ↦ inl (omega arith, omega arith)
        | inr later ↦ elim (free_in_range view n (lba + 1) ls l i later) [
          | inl (lo, hi) ↦ inl (omega arith, omega arith)
          | inr y ↦ inr y
        ]
      ]

  pub free-InUse :
      (d : D) (c : ℕ) (cs : List ℕ) (l i : ℕ)
      → Dir w f d c cs
      → free_all (sec w f d) (sectors_of f cs) ≡ slot_at l i
      → InUse w f d l
  unfolding sectors_of free_all
  free-InUse d c [] l i (dir_end x) e = cc e
  free-InUse d c (c' ∷ cs) l i (dir_link {next = next} hc u x dir) e =
      elim (free_in_range (sec w f d) f.sec_per_cluster (lba_of f c) (sectors_of f cs) l i e) [
        | inl (lo, hi) ↦ record { of_cluster = c; cluster = hc; used = u; from_le = lo; below = hi }
        | inr later ↦ free-InUse d next cs l i dir later
      ]
