-- ===== src/Fat/Save.antt =====
-- kernel/fs/fat.c: fat_write_file of a file that is not there yet, and fat_read_file after it.
use gnuwindows.Base.{
  ℕ, suc, ◌+◌, ◌^◌, ◌≤◌, ◌<◌, ◌⊎◌, inl, inr, ◌≡◌, ◌≢◌, refl, sym, ap, ◌∙◌, true, false, ◌==◌, ltb,
  if◌then◌else◌, not, none, List, [], ◌∷◌, length, take, Memory, arith,
}
use gnuwindows.Fat.Disk.{
  Outcome, done, ◌>>=◌, ◌>>◌, pure, when_true, bind_done, bind_fails, Disk, Fat, M,
}
use gnuwindows.Fat.Entries.{hit, entry_at, dir_find, dir_alloc_slot}
use gnuwindows.Fat.Chain.{is_empty, write_chain}
use gnuwindows.Fat.Files.{
  new_entry, max_length, named, store_entry, place_for, write_bytes, fat_write_file, fat_read_file,
}
use gnuwindows.Fat.Drive.{Works, Fits, table_sector, at, sec, fat_at}
use gnuwindows.Fat.Cells.{Gives, table_sector-lt}
use gnuwindows.Fat.Stored.{lba_of-le, Stored}
use gnuwindows.Fat.Placed.{clusters_apart}
use gnuwindows.Fat.Rounds.{Chained, RunsOut}
use gnuwindows.Fat.Write.{write_chain-Chains}
use gnuwindows.Fat.Slots.{entry_at-new_entry}
use gnuwindows.Fat.Find.{scan_all, found, free_all, sectors_of, Dir, dir_find-scan_all}
use gnuwindows.Fat.Free.{dir_alloc_slot-free_all}
use gnuwindows.Fat.Appear.{Visible, slot_at, free_entry_of, appear}
use gnuwindows.Fat.Single.{OnePart, named_one, fat_read_file-Stored}
use gnuwindows.Fat.Kept.{InUse, store_entry_lem, Dir-Changes, Dir-keeps, free-InUse}

-- A name that the current directory does not have, and bytes for it: the directory has a free entry.
pub record NewFile {D : Type 0} {k : Disk D} (w : Works k) (f : Fat D) (d : D) (cs : List ℕ)
    (l i : ℕ) (name src : List ℕ) : Type 0 where
  pub mounted : f.mounted ≡ true
  pub has_clusters : 0 < f.total_clusters
  pub one_part : OnePart name
  pub visible : Visible name 0x20
  pub directory : Dir w f d f.cwd_cluster cs
  pub not_there : found (scan_all (sec w f d) name (sectors_of f cs)) ≡ none
  pub place : free_all (sec w f d) (sectors_of f cs) ≡ slot_at l i
  pub has_bytes : 0 < length src
  pub at_most : length src ≤ max_length

-- the file is written and then read with a buffer `t`, or no cluster is free
abbrev pub SavesAndReads :
    {D : Type 0} {k : Disk D}
    → Works k
    → Fat D
    → ℕ
    → List ℕ
    → List ℕ
    → ℕ
    → Memory
    → Outcome (Fat D) ℕ
    → Type 0
SavesAndReads {D} {k} w f fuel name src maxlen t o =
    Gives w f
      (λ s d.
        (t' : Memory) × (fat_read_file k fuel name maxlen (at w f t d)
          ≡ done (take maxlen src) (at w f t' d)))
      (length src) o
    ⊎ RunsOut w f o

module _ {D : Type 0} {k : Disk D} (w : Works k) (f : Fat D) (r : Fits w f) (fuel : ℕ) (d : D)
    (cs : List ℕ) (l i : ℕ) (name src : List ℕ) (g : NewFile w f d cs l i name src)
    (enough : length cs < fuel) where
  slot_used : InUse w f d l
  slot_used = free-InUse w f r d f.cwd_cluster cs l i g.directory g.place

  slot-lt : l < w.size
  slot-lt = omega (arith, lba_of-le w f r slot_used.of_cluster slot_used.cluster, slot_used.below)

  module _ (c : ℕ) (d1 d3 : D) (q : Chained w f none src c d d1)
      (e : (x : ℕ)
        → sec w f d3 x ≡ (
            if x == l
            then new_entry i name 0x20 c (length src) (sec w f d1 l)
            else sec w f d1 x)) where
    old_sector : (x : ℕ) → InUse w f d x → sec w f d1 x ≡ sec w f d x
    old_sector x u = q.keeps.sectors u.of_cluster x u.cluster u.used u.from_le u.below

    new_sector :
        (x : ℕ)
        → InUse w f d x
        → sec w f d3 x
          ≡ (if x == l then new_entry i name 0x20 c (length src) (sec w f d l) else sec w f d x)
    new_sector x u = rw (sym (old_sector x u), sym (old_sector l slot_used)) (e x)

    same_table : (x : ℕ) → x < f.total_clusters + 2 → fat_at w f d3 x ≡ fat_at w f d1 x
    unfolding fat_at
    same_table x h =
        let other : (table_sector f x == l) ≡ false =
          ground (arith, table_sector-lt w f r x h, slot_used.from_le) in
        let unchanged : sec w f d3 (table_sector f x) ≡ sec w f d1 (table_sector f x) =
          e (table_sector f x) ∙ rw other refl in
        rw unchanged refl

    directory_then : Dir w f d3 f.cwd_cluster cs
    directory_then =
        Dir-keeps w f r d d3 f.cwd_cluster cs (λ x h u. same_table x h ∙ q.keeps.entries x h u tt)
          g.directory

    Stored-kept : Stored w f d3 c src
    Stored-kept = q.lasting d3 λ x h z. (
      same_table x h.c-lt,
      λ y lo hi.
          let ne : x ≢ slot_used.of_cluster = λ s. slot_used.used (ap (fat_at w f d) (sym s) ∙ z) in
          let apart = clusters_apart f x slot_used.of_cluster y h slot_used.cluster ne lo hi in
          let other : (y == l) ≡ false =
            ground (arith, apart, slot_used.from_le, slot_used.below) in
          e y ∙ rw other refl,
    )

    seen_then :
        scan_all (sec w f d3) name (sectors_of f cs)
        ≡ hit (entry_at l i (new_entry i name 0x20 c (length src) (sec w f d l)))
    seen_then =
        appear (sec w f d) (sec w f d3) l i name 0x20 c (length src) g.visible
          (free_entry_of (sec w f d) (sectors_of f cs) l i g.place) (sectors_of f cs)
          (Dir-Changes w f r d (sec w f d3) l (new_entry i name 0x20 c (length src) (sec w f d l))
            f.cwd_cluster cs new_sector g.directory)
          g.place g.not_there

    read_then :
        (maxlen : ℕ) (t : Memory)
        → (t' : Memory) × (fat_read_file k fuel name maxlen (at w f t d3)
            ≡ done (take maxlen src) (at w f t' d3))
    read_then maxlen t =
        let small : c < 2 ^ 32 = omega (arith, q.cluster.c-lt, r.few_clusters) in
        let short : length src < 2 ^ 32 = omega (arith, g.at_most) in
        let (_, made) =
          entry_at-new_entry i name 0x20 c (length src) (sec w f d l) g.visible.bytes l small
            short in
        fat_read_file-Stored w f r fuel name cs
          record { cluster = c; size = length src; is_dir = false; lba = l; offset = i } src maxlen
          t d3 g.one_part g.mounted enough directory_then (seen_then ∙ ap hit made) refl refl
          Stored-kept

  some_bytes : (p : List ℕ) → 0 < length p → is_empty p ≡ false
  some_bytes [] h = absurd (omega arith)
  some_bytes (b ∷ p) h = refl

  short_enough : not (ltb max_length (length src)) ≡ true
  short_enough = ground (arith, g.at_most)

  write_bytes_eq :
      (s : Memory)
      → write_bytes k fuel src (at w f s d) ≡ write_chain k (suc (length src)) none src (at w f s d)
  unfolding write_bytes
  write_bytes_eq s = rw (some_bytes src g.has_bytes) refl

  -- fat_write_file up to the bytes of the file, and what it does then
  abbrev finish : ℕ → M D ℕ
  finish c = store_entry k fuel (l, i) (new_entry i name 0x20 c (length src)) >> pure (length src)

  up_to_bytes :
      (s : Memory)
      → (s' : Memory) × (fat_write_file k fuel name src (at w f s d)
          ≡ (write_bytes k fuel src >>= finish) (at w f s' d))
  unfolding fat_write_file place_for
  up_to_bytes s =
      let (s1, a) = dir_find-scan_all w f r name fuel f.cwd_cluster cs s d enough g.directory in
      let (s2, b) =
        dir_alloc_slot-free_all w f r fuel f.cwd_cluster cs (l, i) s1 d enough g.directory
          g.place in
      (
        s2,
        when_true (not (ltb max_length (length src))) _ (at w f s d) short_enough
            ∙ bind_done (named k fuel name) _ (at w f s d)
                (named_one w f r fuel name s d g.one_part g.mounted)
            ∙ bind_done (dir_find k fuel f.cwd_cluster name) _ (at w f s d)
                (a ∙ ap (λ u. done u (at w f s1 d)) g.not_there)
            ∙ bind_done (dir_alloc_slot k fuel f.cwd_cluster) _ (at w f s1 d) b,
      )

  -- On a drive that works, with a layout that fits it and more fuel than the directory has clusters: a
  -- file of 1 to 32768 bytes that fat_write_file puts in the current directory, under a name of one part
  -- of at most 15 bytes, whose 8.3 form does not begin with the mark of a free entry. The directory has
  -- no such name and a free entry. fat_read_file with any buffer `t` reads the file back, as far as its
  -- own buffer goes; or fat_write_file fails, and then every cluster from 3 on is in use.
  pub fat_read_file-fat_write_file :
      (maxlen : ℕ) (s t : Memory)
      → SavesAndReads w f fuel name src maxlen t (fat_write_file k fuel name src (at w f s d))
  fat_read_file-fat_write_file maxlen s t =
      let (s2, e2) = up_to_bytes s in
      elim (write_chain-Chains w f r (suc (length src)) none src s2 d g.has_clusters (omega arith)
        g.has_bytes tt) [
          | inl (c, (s3, d1, e3, q)) ↦
              let (s4, d3, e4, changed) =
                store_entry_lem w f r fuel l i (new_entry i name 0x20 c (length src)) s3 d1
                  slot-lt in
              inl (
                s4,
                d3,
                e2
                    ∙ bind_done (write_bytes k fuel src) _ (at w f s2 d) (write_bytes_eq s2 ∙ e3)
                    ∙ bind_done (store_entry k fuel (l, i) (new_entry i name 0x20 c (length src))) _
                        (at w f s3 d1) e4,
                read_then c d1 d3 q changed maxlen t,
              )
          | inr (s3, d1, e3, all) ↦ inr (
            s3,
            d1,
            e2 ∙ bind_fails (write_bytes k fuel src) _ (at w f s2 d) (write_bytes_eq s2 ∙ e3),
            all,
          )
        ]
